-- ===== src/Hub/Branches/Nesting.antt =====
-- What a validated list of tokens promises the compiler: no {else} or {endif} without an open branch.
use macrohelp.Base.{ℕ, zero, suc, Bool, true, false, List, [], ◌∷◌, ◌++◌, length, ◌≡◌, refl, arith}
use macrohelp.Control.Checked.{Checked, done, thrown}
use macrohelp.Runtime.Text.{Text}
use macrohelp.Hub.Branches.{opening, switching, closing, plain, kind_of, validate_from, validate}

-- Whether the tokens close the branches open before them, and never one more.
unfoldable pub balanced : List Text → ℕ → Bool
balanced [] zero = true
balanced [] (suc d) = false
balanced (t ∷ ts) d = elim (kind_of t) [
  | opening ↦ balanced ts (suc d)
  | switching ↦ elim d [ zero ↦ false | suc k ↦ balanced ts (suc k) ]
  | closing ↦ elim d [ zero ↦ false | suc k ↦ balanced ts k ]
  | plain ↦ balanced ts d
]

unfoldable pub is_accepted : Checked (Unit {0}) → Bool
is_accepted (done u) = true
is_accepted (thrown status message) = false

validate_from-balanced :
    (ts : List Text) (bs : List Bool)
    → is_accepted (validate_from ts bs) ≡ true
    → balanced ts (length bs) ≡ true
unfolding validate_from balanced is_accepted
validate_from-balanced [] [] h = refl
validate_from-balanced [] (b ∷ bs) h = ground arith
validate_from-balanced (t ∷ ts) [] h =
    ground (arith, validate_from-balanced ts (false ∷ []), validate_from-balanced ts [])
validate_from-balanced (t ∷ ts) (b ∷ bs) h = ground (
  arith,
  validate_from-balanced ts (false ∷ b ∷ bs),
  validate_from-balanced ts (true ∷ bs),
  validate_from-balanced ts bs,
  validate_from-balanced ts (b ∷ bs),
)

pub validate-balanced : (ts : List Text) → is_accepted (validate ts) ≡ true → balanced ts 0 ≡ true
unfolding validate
validate-balanced ts = validate_from-balanced ts []

-- One depth on top of another, by recursion.
abbrev deepen : ℕ → ℕ → ℕ
deepen zero e = e
deepen (suc d) e = suc (deepen d e)

balanced-deepen :
    (xs ys : List Text) (d e : ℕ)
    → balanced xs d ≡ true
    → balanced ys e ≡ true
    → balanced (xs ++ ys) (deepen d e) ≡ true
unfolding balanced
balanced-deepen [] ys zero e hx hy = hy
balanced-deepen [] ys (suc d) e hx hy = ground arith
balanced-deepen (t ∷ xs) ys zero e hx hy =
    ground (arith, balanced-deepen xs ys 1 e, balanced-deepen xs ys 0 e)
balanced-deepen (t ∷ xs) ys (suc d) e hx hy = ground (
  arith,
  balanced-deepen xs ys (suc (suc d)) e,
  balanced-deepen xs ys (suc d) e,
  balanced-deepen xs ys d e,
)

-- Balanced tokens may be put in anywhere.
pub balanced-append :
    (xs ys : List Text) (d : ℕ)
    → balanced xs 0 ≡ true
    → balanced ys d ≡ true
    → balanced (xs ++ ys) d ≡ true
balanced-append xs ys d = balanced-deepen xs ys 0 d
