-- ===== src/Control/Csv/Termination.antt =====
-- The fuel of `csv` is enough on every text.

use macrohelp.Base.{
  ℕ, zero, suc, ◌≤◌, ◌<◌, ltb, ◌==◌, Option, none, some, Bool, true, false, List, [], ◌∷◌, ◌++◌,
  length, ◌≡◌, subst, arith, Bool-cases, inl, inr,
}
use macrohelp.Control.Checked.{Checked, done, thrown, then_with, refuse, Checked-cases}
use macrohelp.Control.Csv.{
  Cell, quoted, skip_blanks, plain, next_field, all_fields, Command, command, csv, at_separator,
  push_front, push_byte, closed, trimmed,
}

-- What a scan leaves is no longer than what it was given.
abbrev Shrinks : ℕ → Option (List ℕ × List ℕ) → Type 0
Shrinks n none = Unit
Shrinks n (some (v, rest)) = length rest ≤ n

abbrev Leaves {ℓ} : {A : Type ℓ} → ℕ → Checked (A × List ℕ) → Type 0
Leaves n (done (x, rest)) = length rest ≤ n
Leaves n (thrown status message) = Unit

push_front-Shrinks :
    (c n : ℕ) (x : Option (List ℕ × List ℕ)) → Shrinks n x → Shrinks (suc n) (push_front c x)
push_front-Shrinks c n none h = tt
push_front-Shrinks c n (some (v, rest)) h = omega arith

longer : (n : ℕ) (x : Option (List ℕ × List ℕ)) → Shrinks n x → Shrinks (suc n) x
longer n none h = tt
longer n (some (v, rest)) h = omega arith

quoted-Shrinks : (b : Bool) (cs : List ℕ) → Shrinks (length cs) (quoted b cs)
unfolding quoted
quoted-Shrinks false [] = tt
quoted-Shrinks true [] = omega arith
quoted-Shrinks false (c ∷ cs) = elim (Bool-cases (c == b'"')) [
  | inl e ↦ rw (e, quoted) (longer (length cs) (quoted true cs) (quoted-Shrinks true cs))
  | inr e ↦
      rw (e, quoted) (push_front-Shrinks c (length cs) (quoted false cs) (quoted-Shrinks false cs))
]
quoted-Shrinks true (c ∷ cs) = elim (Bool-cases (c == b'"')) [
  | inl e ↦
      rw (e, quoted)
        (push_front-Shrinks b'"' (length cs) (quoted false cs) (quoted-Shrinks false cs))
  | inr e ↦ rw (e, quoted) (omega arith)
]

skip_blanks-le : (cs : List ℕ) → length (skip_blanks cs) ≤ length cs
unfolding skip_blanks
skip_blanks-le [] = omega arith
skip_blanks-le (c ∷ cs) = ground (arith, skip_blanks-le cs)

push_byte-Leaves :
    (c n : ℕ) (x : Checked (List ℕ × List ℕ)) → Leaves n x → Leaves (suc n) (push_byte c x)
push_byte-Leaves c n (done (v, rest)) h = omega arith
push_byte-Leaves c n (thrown status message) h = tt

plain-Leaves : (cs : List ℕ) → Leaves (length cs) (plain cs)
unfolding plain
plain-Leaves [] = omega arith
plain-Leaves (c ∷ cs) = elim (Bool-cases (c == b',')) [
  | inl e ↦ rw e (omega arith)
  | inr e ↦ elim (Bool-cases (c == b'"')) [
    | inl q ↦ rw e (rw q tt)
    | inr q ↦ rw e (rw q (push_byte-Leaves c (length cs) (plain cs) (plain-Leaves cs)))
  ]
]

trimmed-Leaves : (n : ℕ) (x : Checked (List ℕ × List ℕ)) → Leaves n x → Leaves n (trimmed x)
trimmed-Leaves n (done (v, rest)) h = h
trimmed-Leaves n (thrown status message) h = tt

closed-Leaves : (n : ℕ) (x : Option (List ℕ × List ℕ)) → Shrinks n x → Leaves (suc n) (closed x)
closed-Leaves n none h = tt
closed-Leaves n (some (v, rest)) h = elim (Bool-cases (at_separator (skip_blanks rest))) [
  | inl e ↦ rw e (omega (arith, skip_blanks-le rest))
  | inr e ↦ rw e tt
]

next_field-Leaves : (cs : List ℕ) → Leaves (length cs) (next_field cs)
unfolding next_field
next_field-Leaves [] = trimmed-Leaves 0 (plain []) (plain-Leaves [])
next_field-Leaves (c ∷ cs) = elim (Bool-cases (c == b'"')) [
  | inl e ↦
      rw (e, next_field) (closed-Leaves (length cs) (quoted false cs) (quoted-Shrinks false cs))
  | inr e ↦
      rw (e, next_field) (trimmed-Leaves (suc (length cs)) (plain (c ∷ cs)) (plain-Leaves (c ∷ cs)))
]

-- The rounds after a field that was read.
round-total :
    (f : ℕ) (cell : Cell) (rest text : List ℕ) (out : List Cell)
    → next_field text ≡ done (cell, rest)
    → ((t : List ℕ) (o : List Cell)
        → length t < length rest
        → (r : Checked (List Cell)) × (all_fields f t o ≡ some r))
    → (r : Checked (List Cell)) × (all_fields (suc f) text out ≡ some r)
unfolding all_fields
round-total f cell [] text out e ih = elim (Bool-cases (ltb 258 (length (out ++ (cell ∷ []))))) [
  | inl many ↦ (refuse "Too many inputs", rw (e, all_fields) (rw many))
  | inr few ↦ (done (out ++ (cell ∷ [])), rw (e, all_fields) (rw few))
]
round-total f cell (c ∷ cs) text out e ih =
    elim (Bool-cases (ltb 258 (length (out ++ (cell ∷ []))))) [
      | inl many ↦ (refuse "Too many inputs", rw (e, all_fields) (rw many))
      | inr few ↦
          let (r, q) = ih cs (out ++ (cell ∷ [])) (omega arith) in
          (r, rw (e, all_fields) (rw few q))
    ]

all_fields-total :
    (f : ℕ) (text : List ℕ) (out : List Cell)
    → length text < f
    → (r : Checked (List Cell)) × (all_fields f text out ≡ some r)
unfolding all_fields
all_fields-total zero text out h = absurd (omega arith)
all_fields-total (suc f) text out h = elim (Checked-cases (next_field text)) [
  | inr (status, message, e) ↦ (thrown status message, rw (e, all_fields))
  | inl ((cell, rest), e) ↦
      let left : Leaves (length text) (done (cell, rest)) =
        subst (Leaves (length text)) e (next_field-Leaves text) in
      round-total f cell rest text out e (λ t o l. all_fields-total f t o (omega arith))
]

-- `csv` returns on every text: a command or an error.
pub csv-total : (text : List ℕ) → (r : Checked Command) × (csv text ≡ some r)
unfolding csv
csv-total text =
    let (r, e) = all_fields-total (suc (length text)) text [] (omega arith) in
    (then_with r command, rw e)
