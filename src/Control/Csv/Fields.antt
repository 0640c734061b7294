-- ===== src/Control/Csv/Fields.antt =====
-- Printed fields are read back: in quotes as they are, and outside quotes trimmed.
use macrohelp.Base.{
  ℕ, ◌==◌, some, true, false, ◌||◌, List, [], ◌∷◌, ◌++◌, All, ◌≡◌, refl, arith, if◌then◌else◌,
  Bool-cases, inl, inr,
}
use macrohelp.Control.Checked.{done}
use macrohelp.Control.Text.{trim}
use macrohelp.Control.Csv.{Cell, quoted, skip_blanks, plain, next_field, at_separator}

-- A quote is written twice.
abbrev pub escape : List ℕ → List ℕ
escape [] = []
escape (c ∷ cs) = if c == b'"' then b'"' ∷ b'"' ∷ escape cs else c ∷ escape cs

abbrev pub print_cell : Cell → List ℕ
print_cell (v, true) = b'"' ∷ (escape v ++ (b'"' ∷ []))
print_cell (v, false) = v

abbrev pub print_cells : List Cell → List ℕ
print_cells [] = []
print_cells (c ∷ []) = print_cell c
print_cells (c ∷ d ∷ ds) = print_cell c ++ (b',' ∷ print_cells (d ∷ ds))

-- A bare field has neither a comma nor a quote.
abbrev pub IsBare : ℕ → Type 0
IsBare c = (c == b',' || c == b'"') ≡ false

abbrev pub IsPrintable : Cell → Type 0
IsPrintable (v, true) = Unit
IsPrintable (v, false) = All IsBare v

abbrev pub read_cell : Cell → Cell
read_cell (v, true) = (v, true)
read_cell (v, false) = (trim v, false)

quoted-escape :
    (v rest : List ℕ)
    → at_separator rest ≡ true
    → quoted false ((escape v ++ (b'"' ∷ [])) ++ rest) ≡ some (v, rest)
unfolding quoted
quoted-escape [] [] h = refl
quoted-escape [] (c ∷ cs) h = ground arith
quoted-escape (c ∷ cs) rest h = ground (arith, quoted-escape cs rest h)

plain-append :
    (v rest : List ℕ) → All IsBare v → at_separator rest ≡ true → plain (v ++ rest) ≡ done (v, rest)
unfolding plain
plain-append [] [] a h = refl
plain-append [] (c ∷ cs) a h = ground arith
plain-append (c ∷ cs) rest (b, a) h = ground (arith, plain-append cs rest a h)

skip_blanks-id : (rest : List ℕ) → at_separator rest ≡ true → skip_blanks rest ≡ rest
unfolding skip_blanks
skip_blanks-id [] h = refl
skip_blanks-id (c ∷ cs) h = ground arith

pub next_field-print :
    (c : Cell) (rest : List ℕ)
    → IsPrintable c
    → at_separator rest ≡ true
    → next_field (print_cell c ++ rest) ≡ done (read_cell c, rest)
unfolding next_field
next_field-print (v, true) rest p h =
    rw (quoted-escape v rest h, next_field) (rw (skip_blanks-id rest h) (rw h))
next_field-print ([], false) [] p h = refl
next_field-print ([], false) (c ∷ cs) p h = comma c cs h
  where
    comma :
        (c : ℕ) (cs : List ℕ)
        → at_separator (c ∷ cs) ≡ true
        → next_field (c ∷ cs) ≡ done ((trim [], false), c ∷ cs)
    comma c cs h = ground arith
next_field-print (c ∷ cs, false) rest (b, a) h = elim (Bool-cases (c == b'"')) [
  | inl e ↦ absurd (ground arith)
  | inr e ↦ rw (e, next_field) (rw (plain-append (c ∷ cs) rest (b, a) h))
]
