-- ===== src/Runtime/Base64.antt =====
-- `Base64EncodeBytes` and `EncodePowerShellCommand` of runtime/source/src/main.cpp, and a decoder
-- written from the alphabet.
use macrohelp.Base.{
  ℕ, zero, suc, ◌+◌, ◌-◌, ◌*◌, ◌/◌, ◌%◌, ◌<◌, ◌==◌, leb, Bool, true, false, ◌&&◌, none, some, List,
  [], ◌∷◌, get_elem?, All, if◌then◌else◌, ◌≡◌, refl, arith, ap, sym, ==_iff, subst, not, ◌∙◌,
  Bool-cases, inl, inr,
}
use macrohelp.Runtime.Text.{Text, bytes}

abbrev alphabet : Text
alphabet = bytes "ABCDEFGHIJKLMNOPQRSTUVWXYZabcdefghijklmnopqrstuvwxyz0123456789+/"

-- `alphabet[n]`; no digit is 64 or more.
unfoldable pub letter : ℕ → ℕ
letter n = elim (get_elem? alphabet n) [ none ↦ b'=' | some c ↦ c ]

-- `(value >> k) & 0x3f`, with 2^k.
abbrev pub sextet : ℕ → ℕ → ℕ
sextet value power = letter (value / power % 64)

unfoldable pub base64 : Text → Text
unfolding letter
base64 [] = []
base64 (a ∷ []) =
    let value : ℕ = a * 65536 in sextet value 262144 ∷ sextet value 4096 ∷ b'=' ∷ b'=' ∷ []
base64 (a ∷ b ∷ []) =
    let value : ℕ = a * 65536 + b * 256 in
    sextet value 262144 ∷ sextet value 4096 ∷ sextet value 64 ∷ b'=' ∷ []
base64 (a ∷ b ∷ c ∷ rest) =
    let value : ℕ = a * 65536 + b * 256 + c in
    sextet value 262144 ∷ sextet value 4096 ∷ sextet value 64 ∷ sextet value 1 ∷ base64 rest

-- A UTF-16 text's bytes, the low one of each unit first.
unfoldable pub utf16_bytes : List ℕ → Text
utf16_bytes [] = []
utf16_bytes (u ∷ us) = u % 256 ∷ u / 256 % 256 ∷ utf16_bytes us

unfoldable pub powershell_command : List ℕ → Text
unfolding utf16_bytes base64
powershell_command us = base64 (utf16_bytes us)

-- The digit of a letter; 64 for what is none.
unfoldable pub digit : ℕ → ℕ
digit c =
    if leb b'A' c && leb c b'Z'
    then c - b'A'
    else if leb b'a' c && leb c b'z'
    then c - b'a' + 26
    else if leb b'0' c && leb c b'9'
    then c - b'0' + 52
    else if c == b'+'
    then 62
    else if c == b'/'
    then 63
    else 64

-- The bytes of four letters, and of the letters that come last.
unfoldable pub decode : Text → Text
unfolding digit
decode (w ∷ x ∷ y ∷ z ∷ rest) =
    let high : ℕ = digit w * 4 + digit x / 16 in
    let middle : ℕ = digit x % 16 * 16 + digit y / 4 in
    if y == b'='
    then high ∷ []
    else if z == b'='
    then high ∷ middle ∷ []
    else high ∷ middle ∷ (digit y % 4 * 64 + digit z) ∷ decode rest
decode _ = []

abbrev good : ℕ → Bool
good n = (digit (letter n) == n) && not (letter n == b'=')

abbrev good_below : ℕ → Bool
good_below zero = true
good_below (suc k) = good k && good_below k

below_good : (k n : ℕ) → n < k → good_below k ≡ true → good n ≡ true
below_good zero n b e = absurd (omega arith)
below_good (suc k) n b e = elim (Bool-cases (n == k)) [
  | inl q ↦ subst (λ x. good x ≡ true) (sym ((==_iff n k).0 q)) (ground (arith, e))
  | inr q ↦ below_good k n (ground (arith, q, b)) (ground (arith, e))
]

all_good : good_below 64 ≡ true
unfolding digit letter
all_good = refl

digit-letter : (n : ℕ) → n < 64 → (digit (letter n) ≡ n) × ((letter n == b'=') ≡ false)
digit-letter n b = let e = below_good 64 n b all_good in (ground (arith, e), ground (arith, e))

three_bytes :
    (a b c : ℕ)
    → a < 256
    → b < 256
    → c < 256
    → let v : ℕ = a * 65536 + b * 256 + c in
      (v / 262144 % 64 * 4 + v / 4096 % 64 / 16 ≡ a)
      × (v / 4096 % 64 % 16 * 16 + v / 64 % 64 / 4 ≡ b)
      × (v / 64 % 64 % 4 * 64 + v / 1 % 64 ≡ c)
three_bytes a b c ha hb hc = (omega arith, omega arith, omega arith)

two_bytes :
    (a b : ℕ)
    → a < 256
    → b < 256
    → let v : ℕ = a * 65536 + b * 256 in
      (v / 262144 % 64 * 4 + v / 4096 % 64 / 16 ≡ a)
      × (v / 4096 % 64 % 16 * 16 + v / 64 % 64 / 4 ≡ b)
two_bytes a b ha hb = (omega arith, omega arith)

one_byte : (a : ℕ) → a < 256 → a * 65536 / 262144 % 64 * 4 + a * 65536 / 4096 % 64 / 16 ≡ a
one_byte a ha = omega arith

digit-sextet : (v p : ℕ) → digit (sextet v p) ≡ v / p % 64
digit-sextet v p = (digit-letter (v / p % 64) (omega arith)).0

sextet-mark : (v p : ℕ) → (sextet v p == b'=') ≡ false
sextet-mark v p = (digit-letter (v / p % 64) (omega arith)).1

-- Bytes that are encoded are decoded again.
pub decode-base64 : (bs : Text) → All (λ b. b < 256) bs → decode (base64 bs) ≡ bs
unfolding decode base64
decode-base64 [] h = refl
decode-base64 (a ∷ []) (ha, _) =
    rw (digit-sextet (a * 65536) 262144, digit-sextet (a * 65536) 4096)
      (ap (λ x. x ∷ []) (one_byte a ha))
decode-base64 (a ∷ b ∷ []) (ha, (hb, _)) =
    let v : ℕ = a * 65536 + b * 256 in
    let e = two_bytes a b ha hb in
    rw (sextet-mark v 64, digit-sextet v 262144, digit-sextet v 4096, digit-sextet v 64, e.0, e.1)
      refl
decode-base64 (a ∷ b ∷ c ∷ rest) (ha, (hb, (hc, hr))) =
    let v : ℕ = a * 65536 + b * 256 + c in
    let e = three_bytes a b c ha hb hc in
    rw
      (
        sextet-mark v 64,
        sextet-mark v 1,
        digit-sextet v 262144,
        digit-sextet v 4096,
        digit-sextet v 64,
        digit-sextet v 1,
        e.0,
        e.1,
        e.2,
        decode-base64 rest hr,
      )
      refl

-- The units of bytes in pairs, the low one first.
unfoldable pub units : Text → List ℕ
units (low ∷ high ∷ rest) = (low + high * 256) ∷ units rest
units _ = []

utf16_bytes-All : (us : List ℕ) → All (λ b. b < 256) (utf16_bytes us)
unfolding utf16_bytes
utf16_bytes-All [] = tt
utf16_bytes-All (u ∷ us) = (omega arith, (omega arith, utf16_bytes-All us))

low_high : (u : ℕ) → u < 65536 → u % 256 + u / 256 % 256 * 256 ≡ u
low_high u b = omega arith

units-utf16_bytes : (us : List ℕ) → All (λ u. u < 65536) us → units (utf16_bytes us) ≡ us
unfolding units utf16_bytes
units-utf16_bytes [] h = refl
units-utf16_bytes (u ∷ us) (b, h) = rw (units-utf16_bytes us h) (ap (λ x. x ∷ us) (low_high u b))

-- The 16-bit units of a command are found again in the bytes that its encoded form decodes to.
pub units-powershell_command :
    (us : List ℕ) → All (λ u. u < 65536) us → units (decode (powershell_command us)) ≡ us
unfolding powershell_command
units-powershell_command us h =
    ap units (decode-base64 (utf16_bytes us) (utf16_bytes-All us)) ∙ units-utf16_bytes us h
