-- ===== src/Control/Checks/Coordinates.antt =====
-- What `coordinates` accepts.
use macrohelp.Base.{
  ℤ, pos, negsuc, ◌≤ℤ◌, ℕ, suc, ltb, Bool-cases, true, List, [], ◌∷◌, map, length, All, ◌≡◌, ◌↔◌,
  ◌⊎◌, inl, inr, refl, sym, subst, ap, ◌∙◌, arith,
}
use macrohelp.Base.Json.{Json, Items, null, bool, num, real, str, arr, obj, nil, cons, items_of}
use macrohelp.Control.Checked.{done}
use macrohelp.Control.Checks.{integer, size, all_coordinates, coordinates, null_or_coordinates}

-- Between -100000 and 100000, or less than 2^64 by 1 to 100000.
abbrev pub InRange : ℤ → Type 0
InRange z =
    ((negsuc 99999 ≤ℤ z) × (z ≤ℤ pos 100000))
    ⊎ ((pos 18446744073709451616 ≤ℤ z) × (z ≤ℤ pos 18446744073709551615))

abbrev pub IsCoordinates : ℕ → Json → Type 0
IsCoordinates n v =
    (zs : List ℤ) × (v ≡ arr (items_of (map num zs))) × (length zs ≡ n) × All InRange zs

integer-InRange : (z : ℤ) → integer (num z) (negsuc 99999) (pos 100000) ≡ true → InRange z
integer-InRange (pos n) h = elim (Bool-cases (ltb n 9223372036854775808)) [
  | inl small ↦ inl (ground (arith, small), ground (arith, small))
  | inr big ↦ inr (ground (arith, big), ground (arith, big))
]
integer-InRange (negsuc n) h = inl (ground arith, ground arith)

InRange-integer : (z : ℤ) → InRange z → integer (num z) (negsuc 99999) (pos 100000) ≡ true
InRange-integer (pos n) (inl (lo, hi)) = ground arith
InRange-integer (pos n) (inr (lo, hi)) = ground arith
InRange-integer (negsuc n) (inl (lo, hi)) = ground arith
InRange-integer (negsuc n) (inr (lo, hi)) = absurd (omega arith)

integer-num :
    (v : Json) → integer v (negsuc 99999) (pos 100000) ≡ true → (z : ℤ) × (v ≡ num z) × InRange z
integer-num (num z) h = (z, refl, integer-InRange z h)
integer-num null h = cc
integer-num (bool b) h = cc
integer-num (real t) h = cc
integer-num (str t) h = cc
integer-num (arr vs) h = cc
integer-num (obj fs) h = cc

-- The integers of a list of coordinates that pass.
coordinates_in :
    (vs : Items)
    → all_coordinates vs ≡ done tt
    → (zs : List ℤ) × (vs ≡ items_of (map num zs)) × (length zs ≡ size vs) × All InRange zs
unfolding all_coordinates items_of
coordinates_in nil h = ([], refl, refl, tt)
coordinates_in (cons v vs) h =
    let rest : all_coordinates vs ≡ done tt = ground arith in
    let whole : integer v (negsuc 99999) (pos 100000) ≡ true = ground arith in
    let (z, e, fits) = integer-num v whole in
    let (zs, es, n, r) = coordinates_in vs rest in
    (z ∷ zs, rw e (ap (λ l. cons (num z) l) es), ap suc n, (fits, r))

all_coordinates_of :
    (zs : List ℤ) → All InRange zs → all_coordinates (items_of (map num zs)) ≡ done tt
unfolding all_coordinates items_of
all_coordinates_of [] r = refl
all_coordinates_of (z ∷ zs) (fits, r) = rw (InRange-integer z fits) (all_coordinates_of zs r)

size-items : (zs : List ℤ) → size (items_of (map num zs)) ≡ length zs
unfolding items_of
size-items [] = refl
size-items (z ∷ zs) = ap suc (size-items zs)

-- `coordinates` accepts exactly the lists of so many integers, each between -100000 and 100000 or less
-- than 2^64 by 1 to 100000.
pub coordinates_lem : (v : Json) (n : ℕ) → (coordinates v n ≡ done tt) ↔ IsCoordinates n v
unfolding coordinates
coordinates_lem v n = (there v, back)
  where
    there : (v : Json) → coordinates v n ≡ done tt → IsCoordinates n v
    there (arr vs) h =
        let rest : all_coordinates vs ≡ done tt = ground arith in
        let many : size vs ≡ n = ground arith in
        let (zs, e, m, r) = coordinates_in vs rest in (zs, ap arr e, m ∙ many, r)
    there null h = cc
    there (bool b) h = cc
    there (num z) h = cc
    there (real t) h = cc
    there (str t) h = cc
    there (obj fs) h = cc

    back : IsCoordinates n v → coordinates v n ≡ done tt
    back (zs, e, m, r) =
        subst (λ x. coordinates x n ≡ done tt) (sym e)
          (ground (arith, size-items zs, all_coordinates_of zs r))

pub null_or_coordinates_lem :
    (v : Json) (n : ℕ) → null_or_coordinates v n ≡ done tt → (v ≡ null) ⊎ IsCoordinates n v
null_or_coordinates_lem null n h = inl refl
null_or_coordinates_lem (bool b) n h = inr ((coordinates_lem (bool b) n).0 h)
null_or_coordinates_lem (num z) n h = inr ((coordinates_lem (num z) n).0 h)
null_or_coordinates_lem (real t) n h = inr ((coordinates_lem (real t) n).0 h)
null_or_coordinates_lem (str t) n h = inr ((coordinates_lem (str t) n).0 h)
null_or_coordinates_lem (arr vs) n h = inr ((coordinates_lem (arr vs) n).0 h)
null_or_coordinates_lem (obj fs) n h = inr ((coordinates_lem (obj fs) n).0 h)
