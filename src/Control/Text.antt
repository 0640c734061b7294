-- ===== src/Control/Text.antt =====
-- `trim` of control_protocol.hpp, on texts as lists of bytes.
use Prim.Native.Char.{code}
use macrohelp.Base.{
  ℕ, String, Bool, true, false, ◌||◌, ◌&&◌, ◌==◌, List, [], ◌∷◌, ◌++◌, All, ◌≡◌, refl, ap, ◌∙◌,
  arith, if◌then◌else◌, Bool-cases, inl, inr,
}

-- The bytes of a text that is ASCII.
abbrev pub codes : String → List ℕ
codes String.[] = []
codes (String.◌∷◌ c s) = code c ∷ codes s

abbrev pub same_text : List ℕ → List ℕ → Bool
same_text [] [] = true
same_text [] (d ∷ ds) = false
same_text (c ∷ cs) [] = false
same_text (c ∷ cs) (d ∷ ds) = c == d && same_text cs ds

-- " \t\r\n"
abbrev pub is_blank : ℕ → Bool
is_blank c = c == b' ' || (c == 9 || (c == 13 || c == 10))

-- From `find_first_not_of` on.
unfoldable pub trim_start : List ℕ → List ℕ
trim_start [] = []
trim_start (c ∷ cs) = if is_blank c then trim_start cs else c ∷ cs

-- A byte before a text whose blanks at the end are gone.
abbrev put : ℕ → List ℕ → List ℕ
put c [] = if is_blank c then [] else c ∷ []
put c (d ∷ ds) = c ∷ d ∷ ds

-- Up to `find_last_not_of`.
unfoldable pub trim_end : List ℕ → List ℕ
trim_end [] = []
trim_end (c ∷ cs) = put c (trim_end cs)

unfoldable pub trim : List ℕ → List ℕ
trim s = trim_end (trim_start s)

-- No blank at the front, and none at the end.
abbrev pub starts_well : List ℕ → Bool
starts_well [] = true
starts_well (c ∷ cs) = if is_blank c then false else true

abbrev pub ends_well : List ℕ → Bool
ends_well [] = true
ends_well (c ∷ []) = if is_blank c then false else true
ends_well (c ∷ d ∷ ds) = ends_well (d ∷ ds)

put_ends : (c : ℕ) (s : List ℕ) → ends_well s ≡ true → ends_well (put c s) ≡ true
put_ends c [] h = ground arith
put_ends c (d ∷ ds) h = h

trim_end_ends : (s : List ℕ) → ends_well (trim_end s) ≡ true
unfolding trim_end
trim_end_ends [] = refl
trim_end_ends (c ∷ cs) = put_ends c (trim_end cs) (trim_end_ends cs)

put_starts : (c : ℕ) (s : List ℕ) → is_blank c ≡ false → starts_well (put c s) ≡ true
put_starts c [] h = rw (h, put) (rw h)
put_starts c (d ∷ ds) h = rw h

trim_end_starts : (s : List ℕ) → starts_well s ≡ true → starts_well (trim_end s) ≡ true
unfolding trim_end
trim_end_starts [] h = refl
trim_end_starts (c ∷ cs) h = elim (Bool-cases (is_blank c)) [
  | inl e ↦ absurd (ground arith)
  | inr e ↦ put_starts c (trim_end cs) e
]

trim_start_starts : (s : List ℕ) → starts_well (trim_start s) ≡ true
unfolding trim_start
trim_start_starts [] = refl
trim_start_starts (c ∷ cs) = ground (arith, trim_start_starts cs)

trim_start_id : (s : List ℕ) → starts_well s ≡ true → trim_start s ≡ s
unfolding trim_start
trim_start_id [] h = refl
trim_start_id (c ∷ cs) h = ground arith

trim_end_id : (s : List ℕ) → ends_well s ≡ true → trim_end s ≡ s
unfolding trim_end
trim_end_id [] h = refl
trim_end_id (c ∷ []) h = ground arith
trim_end_id (c ∷ d ∷ ds) h = rw (trim_end_id (d ∷ ds) h, trim_end)

-- A trimmed text has a blank neither at its front nor at its end, and trimming it again leaves it as
-- it is.
pub trim_lem :
    (s : List ℕ)
    → (starts_well (trim s) ≡ true) × (ends_well (trim s) ≡ true) × (trim (trim s) ≡ trim s)
unfolding trim
trim_lem s =
    let front = trim_end_starts (trim_start s) (trim_start_starts s) in
    let back = trim_end_ends (trim_start s) in
    (front, back, rw (trim_start_id (trim_end (trim_start s)) front) (trim_end_id _ back))

abbrev pub AreBlank : List ℕ → Type 0
AreBlank = All (λ c. is_blank c ≡ true)

-- What a trimmed text was cut from.
pub trim_start-front :
    (t : List ℕ) → (front : List ℕ) × (t ≡ front ++ trim_start t) × AreBlank front
unfolding trim_start
trim_start-front [] = ([], refl, tt)
trim_start-front (c ∷ cs) = elim (Bool-cases (is_blank c)) [
  | inl e ↦
      let (front, w, b) = trim_start-front cs in
      rw (e, trim_start) (c ∷ front, ap (λ l. c ∷ l) w, (e, b))
  | inr e ↦ rw (e, trim_start) ([], refl, tt)
]

put-back :
    (c : ℕ) (s back : List ℕ)
    → AreBlank back
    → (after : List ℕ) × ((c ∷ (s ++ back)) ≡ put c s ++ after) × AreBlank after
put-back c [] back b = elim (Bool-cases (is_blank c)) [
  | inl e ↦ rw (e, put) (c ∷ back, refl, (e, b))
  | inr e ↦ rw (e, put) (back, refl, b)
]
put-back c (d ∷ ds) back b = (back, refl, b)

pub trim_end-back : (t : List ℕ) → (back : List ℕ) × (t ≡ trim_end t ++ back) × AreBlank back
unfolding trim_end
trim_end-back [] = ([], refl, tt)
trim_end-back (c ∷ cs) =
    let (back, w, b) = trim_end-back cs in
    let (after, x, d) = put-back c (trim_end cs) back b in (after, ap (λ l. c ∷ l) w ∙ x, d)
