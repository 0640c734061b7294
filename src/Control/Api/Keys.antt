-- ===== src/Control/Api/Keys.antt =====
-- Keys that are found equal are equal.
use macrohelp.Base.{
  ℕ, zero, suc, ◌*◌, ◌/◌, ◌<◌, true, [], ◌∷◌, length, All, ◌≡◌, refl, ==_iff, arith,
}
use macrohelp.Runtime.Text.{Text}
use macrohelp.Control.Api.{xor_bits, or_bits, difference, equal_key}

abbrev power : ℕ → ℕ
power zero = 1
power (suc f) = 2 * power f

xor_bits_lt : (f a b : ℕ) → xor_bits f a b < power f
unfolding xor_bits
xor_bits_lt zero a b = omega arith
xor_bits_lt (suc f) a b = omega (arith, xor_bits_lt f (a / 2) (b / 2))

or_bits_lt : (f a b : ℕ) → or_bits f a b < power f
unfolding or_bits
or_bits_lt zero a b = omega arith
or_bits_lt (suc f) a b = ground (arith, or_bits_lt f (a / 2) (b / 2))

xor_bits_zero : (f a b : ℕ) → a < power f → b < power f → xor_bits f a b ≡ 0 → a ≡ b
unfolding xor_bits
xor_bits_zero zero a b ha hb e = omega arith
xor_bits_zero (suc f) a b ha hb e =
    let q = xor_bits_zero f (a / 2) (b / 2) (omega arith) (omega arith) (omega arith) in omega arith

or_bits_zero : (f a b : ℕ) → a < power f → b < power f → or_bits f a b ≡ 0 → (a ≡ 0) × (b ≡ 0)
unfolding or_bits
or_bits_zero zero a b ha hb e = (omega arith, omega arith)
or_bits_zero (suc f) a b ha hb e =
    let q = or_bits_zero f (a / 2) (b / 2) (omega arith) (omega arith) (ground (arith, e)) in
    (ground (arith, q, e), ground (arith, q, e))

abbrev pub AreBytes : Text → Type 0
AreBytes = All (λ c. c < 256)

byte_lt : (c : ℕ) → c < 256 → c < power 64
byte_lt c b = omega arith

ap2_cons : {c d : ℕ} {cs ds : Text} → c ≡ d → cs ≡ ds → (c ∷ cs) ≡ (d ∷ ds)
ap2_cons e f = rw (e, f) refl

-- A difference of 0 was 0 before, and found none.
difference_zero :
    (diff : ℕ) (a b : Text)
    → diff < power 64
    → AreBytes a
    → AreBytes b
    → length a ≡ length b
    → difference diff a b ≡ 0
    → (diff ≡ 0) × (a ≡ b)
unfolding difference
difference_zero diff [] [] hd ha hb l e = (e, refl)
difference_zero diff [] (d ∷ ds) hd ha hb l e = absurd (omega arith)
difference_zero diff (c ∷ cs) [] hd ha hb l e = absurd (omega arith)
difference_zero diff (c ∷ cs) (d ∷ ds) hd (hc, ha) (hk, hb) l e =
    let (z, same) =
      difference_zero (or_bits 64 diff (xor_bits 64 c d)) cs ds
        (or_bits_lt 64 diff (xor_bits 64 c d)) ha hb (omega arith) e in
    let (before_zero, byte_zero) =
      or_bits_zero 64 diff (xor_bits 64 c d) hd (xor_bits_lt 64 c d) z in
    (before_zero, ap2_cons (xor_bits_zero 64 c d (byte_lt c hc) (byte_lt d hk) byte_zero) same)

-- The lengths are compared first.
length_zero : (diff : ℕ) (a b : Text) → diff < power 64 → difference diff a b ≡ 0 → diff ≡ 0
unfolding difference
length_zero diff a [] hd e = e
length_zero diff [] (d ∷ ds) hd e =
    (or_bits_zero 64 diff (xor_bits 64 0 d) hd (xor_bits_lt 64 0 d) (
      length_zero (or_bits 64 diff (xor_bits 64 0 d)) [] ds (or_bits_lt 64 diff (xor_bits 64 0 d))
        e)).0
length_zero diff (c ∷ cs) (d ∷ ds) hd e =
    (or_bits_zero 64 diff (xor_bits 64 c d) hd (xor_bits_lt 64 c d) (
      length_zero (or_bits 64 diff (xor_bits 64 c d)) cs ds (or_bits_lt 64 diff (xor_bits 64 c d))
        e)).0

-- Keys of bytes, of lengths that fit in 64 bits, are found equal only if they are.
pub equal_key_sound :
    (a b : Text)
    → AreBytes a
    → AreBytes b
    → length a < 18446744073709551616
    → length b < 18446744073709551616
    → equal_key a b ≡ true
    → a ≡ b
unfolding equal_key
equal_key_sound a b ha hb la lb h =
    let e : difference (xor_bits 64 (length a) (length b)) a b ≡ 0 = (==_iff _ 0).0 h in
    let small = xor_bits_lt 64 (length a) (length b) in
    let same : length a ≡ length b =
      xor_bits_zero 64 (length a) (length b) la lb (length_zero _ a b small e) in
    (difference_zero _ a b small ha hb same e).1
