-- ===== src/Runtime/Decimal.antt =====
-- The decimal texts of `int`s that runtime/source/src/main.cpp writes with streams and
-- `std::to_string`, and `wcstol` and `atoi`, which read them, with digits and spaces of ASCII. A `long`
-- has 32 bits on Windows.
use macrohelp.Base.{
  ℕ, zero, suc, ◌+◌, ◌-◌, ◌*◌, ◌/◌, ◌%◌, ◌≤◌, ◌<◌, ◌==◌, ltb, leb, ℤ, pos, negsuc, Bool, true,
  false, ◌&&◌, Option, none, some, [], ◌∷◌, ◌++◌, if◌then◌else◌, ◌≡◌, refl, ap, subst, append-nil,
  ◌∙◌, arith, length, all, Bool-cases, inl, inr,
}
use macrohelp.Base.Json.{fits_int}
use macrohelp.Runtime.Text.{Text, trim_start}

abbrev pub is_digit : ℕ → Bool
is_digit c = leb b'0' c && leb c b'9'

-- Each round takes the last digit; fuel above the number is enough.
unfoldable pub digits : ℕ → ℕ → Text → Text
digits zero n out = out
digits (suc f) n out = elim (ltb n 10) [
  | true ↦ (b'0' + n) ∷ out
  | false ↦ digits f (n / 10) ((b'0' + n % 10) ∷ out)
]

unfoldable pub print_int : ℤ → Text
unfolding digits
print_int (pos n) = digits (suc n) n []
print_int (negsuc n) = b'-' ∷ digits (suc (suc n)) (suc n) []

-- The number that the digits in front spell, behind `acc`, and what follows them.
unfoldable pub scan_digits : ℕ → Text → ℕ × Text
scan_digits acc [] = (acc, [])
scan_digits acc (c ∷ cs) = elim (is_digit c) [
  | true ↦ scan_digits (acc * 10 + (c - b'0')) cs
  | false ↦ (acc, c ∷ cs)
]

-- A number out of range is the nearest one in range.
abbrev pub clamped : Bool → ℕ → ℤ
clamped true n =
    if n == 0 then pos 0 else if ltb 2147483648 n then negsuc 2147483647 else negsuc (n - 1)
clamped false n = if ltb 2147483647 n then pos 2147483647 else pos n

abbrev pub scan_number : Bool → Text → Option (ℤ × Text)
scan_number negative [] = none
scan_number negative (c ∷ cs) =
    if is_digit c
    then (let (n, rest) = scan_digits 0 (c ∷ cs) in some (clamped negative n, rest))
    else none

abbrev pub scan_sign : Text → Option (ℤ × Text)
scan_sign [] = none
scan_sign (c ∷ cs) =
    if c == b'-'
    then scan_number true cs
    else if c == b'+'
    then scan_number false cs
    else scan_number false (c ∷ cs)

-- `wcstol`: `none` where no number stands at the start.
unfoldable pub scan_long : Text → Option (ℤ × Text)
unfolding trim_start scan_digits
scan_long t = scan_sign (trim_start t)

-- `atoi`.
unfoldable pub atoi : Text → ℤ
unfolding scan_long
atoi t = elim (scan_long t) [ none ↦ pos 0 | some (n, rest) ↦ n ]

abbrev pub no_digit : Text → Bool
no_digit [] = true
no_digit (c ∷ cs) = if is_digit c then false else true

digits-append : (f n : ℕ) (out rest : Text) → digits f n out ++ rest ≡ digits f n (out ++ rest)
unfolding digits
digits-append zero n out rest = refl
digits-append (suc f) n out rest = elim (Bool-cases (ltb n 10)) [
  | inl e ↦ rw (e, digits) refl
  | inr e ↦ rw (e, digits) (digits-append f (n / 10) _ rest)
]

scan_digits-end :
    (acc : ℕ) (rest : Text) → no_digit rest ≡ true → scan_digits acc rest ≡ (acc, rest)
unfolding scan_digits
scan_digits-end acc [] h = refl
scan_digits-end acc (c ∷ cs) h = ground (arith, h)

-- Reading the digits of `n` leaves `n` read.
scan_digits-digits :
    (f n : ℕ) (out : Text) → n < f → scan_digits 0 (digits f n out) ≡ scan_digits n out
unfolding digits scan_digits
scan_digits-digits zero n out h = absurd (omega arith)
scan_digits-digits (suc f) n out h = elim (Bool-cases (ltb n 10)) [
  | inl e ↦ rw (e, digits) (ground (arith, e))
  | inr e ↦
      rw (e, digits)
        (scan_digits-digits f (n / 10) ((b'0' + n % 10) ∷ out) (ground (arith, e, h))
          ∙ ground (arith, e))
]

-- The first byte of the digits is one.
digits_head :
    (f n : ℕ) (out : Text)
    → 0 < f
    → (c : ℕ) × (cs : Text) × (digits f n out ≡ c ∷ cs) × (is_digit c ≡ true)
unfolding digits
digits_head zero n out h = absurd (omega arith)
digits_head (suc zero) n out h = elim (Bool-cases (ltb n 10)) [
  | inl e ↦ (b'0' + n, out, rw (e, digits) refl, ground (arith, e))
  | inr e ↦ (b'0' + n % 10, out, rw (e, digits) refl, ground (arith))
]
digits_head (suc (suc f)) n out h = elim (Bool-cases (ltb n 10)) [
  | inl e ↦ (b'0' + n, out, rw (e, digits) refl, ground (arith, e))
  | inr e ↦ rw (e, digits) (digits_head (suc f) (n / 10) ((b'0' + n % 10) ∷ out) (omega arith))
]

scan_number-digits :
    (negative : Bool) (f n : ℕ) (rest : Text)
    → n < f
    → no_digit rest ≡ true
    → scan_number negative (digits f n rest) ≡ some (clamped negative n, rest)
scan_number-digits negative f n rest h e =
    let (c, cs, shape, d) = digits_head f n rest (omega arith) in
    let read = scan_digits-digits f n rest h ∙ scan_digits-end n rest e in
    rw shape (rw d (ap (λ (p : ℕ × Text). some (clamped negative p.0, p.1)) (rw shape at read)))

trim_start-digit : (c : ℕ) (cs : Text) → is_digit c ≡ true → trim_start (c ∷ cs) ≡ c ∷ cs
unfolding trim_start
trim_start-digit c cs h = ground (arith, h)

scan_sign-digit :
    (c : ℕ) (cs : Text) → is_digit c ≡ true → scan_sign (c ∷ cs) ≡ scan_number false (c ∷ cs)
scan_sign-digit c cs h = ground (arith, h)

scan_long-digits :
    (f n : ℕ) (rest : Text)
    → n < f
    → no_digit rest ≡ true
    → scan_long (digits f n rest) ≡ some (clamped false n, rest)
unfolding scan_long
scan_long-digits f n rest h e =
    let (c, cs, shape, d) = digits_head f n rest (omega arith) in
    let read = scan_number-digits false f n rest h e in
    rw shape
      (ap scan_sign (trim_start-digit c cs d) ∙ (scan_sign-digit c cs d ∙ (rw shape at read)))

scan_long-minus : (t : Text) → scan_long (b'-' ∷ t) ≡ scan_number true t
unfolding scan_long
scan_long-minus t = refl

scan_long-negative :
    (f n : ℕ) (rest : Text)
    → suc n < f
    → fits_int (negsuc n) ≡ true
    → no_digit rest ≡ true
    → scan_long ((b'-' ∷ digits f (suc n) []) ++ rest) ≡ some (negsuc n, rest)
scan_long-negative f n rest h fit e = rw (digits-append f (suc n) [] rest) (
    scan_long-minus (digits f (suc n) rest)
    ∙ (scan_number-digits true f (suc n) rest h e ∙ ground (arith, fit)))

-- A printed `int` is read back, before anything but a digit.
pub scan_long-print_int :
    (n : ℤ) (rest : Text)
    → fits_int n ≡ true
    → no_digit rest ≡ true
    → scan_long (print_int n ++ rest) ≡ some (n, rest)
unfolding print_int
scan_long-print_int (pos n) rest f e =
    rw (digits-append (suc n) n [] rest)
      (scan_long-digits (suc n) n rest (omega arith) e ∙ ground (arith, f))
scan_long-print_int (negsuc n) rest f e = scan_long-negative (suc (suc n)) n rest (omega arith) f e

pub atoi-print_int : (n : ℤ) → fits_int n ≡ true → atoi (print_int n) ≡ n
unfolding atoi
atoi-print_int n f =
    let read : scan_long (print_int n) ≡ some (n, []) =
      subst (λ t. scan_long t ≡ some (n, [])) (append-nil (print_int n))
        (scan_long-print_int n [] f refl) in
    rw (read, atoi) refl

-- A printed number starts with a byte other than 0.
pub print_int_head : (n : ℤ) → (c : ℕ) × (cs : Text) × (print_int n ≡ c ∷ cs) × ((c == 0) ≡ false)
unfolding print_int
print_int_head (pos n) =
    let (c, cs, shape, d) = digits_head (suc n) n [] (omega arith) in
    (c, cs, shape, ground (arith, d))
print_int_head (negsuc n) = (b'-', digits (suc (suc n)) (suc n) [], refl, refl)

length-trim_start : (t : Text) → length (trim_start t) ≤ length t
unfolding trim_start
length-trim_start [] = omega arith
length-trim_start (c ∷ cs) = ground (arith, length-trim_start cs)

length-scan_digits : (acc : ℕ) (t : Text) → length (scan_digits acc t).1 ≤ length t
unfolding scan_digits
length-scan_digits acc [] = omega arith
length-scan_digits acc (c ∷ cs) = ground (arith, length-scan_digits (acc * 10 + (c - b'0')) cs)

scan_number-Shorter :
    (negative : Bool) (t rest : Text) (n : ℤ)
    → scan_number negative t ≡ some (n, rest)
    → length rest < length t
unfolding scan_digits
scan_number-Shorter negative [] rest n h = absurd (cc)
scan_number-Shorter negative (c ∷ cs) rest n h = ground (arith, h, length-scan_digits (c - b'0') cs)

scan_sign-Shorter : (t rest : Text) (n : ℤ) → scan_sign t ≡ some (n, rest) → length rest < length t
scan_sign-Shorter [] rest n h = absurd (cc)
scan_sign-Shorter (c ∷ cs) rest n h = elim (Bool-cases (c == b'-')) [
  | inl e ↦ omega (arith, scan_number-Shorter true cs rest n (rw e at h))
  | inr e ↦ elim (Bool-cases (c == b'+')) [
    | inl p ↦ omega (arith, scan_number-Shorter false cs rest n (rw p at (rw e at h)))
    | inr p ↦ scan_number-Shorter false (c ∷ cs) rest n (rw p at (rw e at h))
  ]
]

-- A number takes a byte at least.
pub scan_long-Shorter :
    (t rest : Text) (n : ℤ) → scan_long t ≡ some (n, rest) → length rest < length t
unfolding scan_long
scan_long-Shorter t rest n h =
    omega (arith, scan_sign-Shorter (trim_start t) rest n h, length-trim_start t)

abbrev pub is_ascii : Text → Bool
is_ascii = all (λ c. ltb c 128)

digits_ascii : (f n : ℕ) (out : Text) → is_ascii out ≡ true → is_ascii (digits f n out) ≡ true
unfolding digits
digits_ascii zero n out h = h
digits_ascii (suc f) n out h = elim (Bool-cases (ltb n 10)) [
  | inl e ↦ rw (e, digits) (ground (arith, e, h))
  | inr e ↦ rw (e, digits) (digits_ascii f (n / 10) ((b'0' + n % 10) ∷ out) (ground (arith, h)))
]

pub print_int_ascii : (n : ℤ) → is_ascii (print_int n) ≡ true
unfolding print_int
print_int_ascii (pos n) = digits_ascii (suc n) n [] refl
print_int_ascii (negsuc n) = digits_ascii (suc (suc n)) (suc n) [] refl
