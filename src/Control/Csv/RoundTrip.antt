-- ===== src/Control/Csv/RoundTrip.antt =====
-- A control request that is printed as a line of fields is read back by `csv`.

use macrohelp.Base.{
  ℕ, zero, suc, ◌+◌, ◌≤◌, ◌<◌, ltb, some, Bool, true, false, List, [], ◌∷◌, ◌++◌, All, map, length,
  length-append, append_assoc, append-nil, ◌≡◌, refl, ◌∙◌, sym, ap, arith, all, not, ◌||◌, ◌==◌,
}
use macrohelp.Control.Checked.{done}
use macrohelp.Control.Text.{codes, trim, trim_start, trim_end}
use macrohelp.Control.Csv.{
  Cell, next_field, all_fields, Command, command, of_split, split_temporary, texts, csv,
}
use macrohelp.Control.Csv.Fields.{
  print_cell, print_cells, read_cell, IsBare, IsPrintable, next_field-print,
}

few : (out : List Cell) (c : Cell) → length out < 258 → ltb 258 (length (out ++ (c ∷ []))) ≡ false
few out c h = ground (arith, length-append out (c ∷ []))

-- One round reads one field.
all_fields-last :
    (f : ℕ) (c : Cell) (out : List Cell)
    → IsPrintable c
    → length out < 258
    → all_fields (suc f) (print_cell c) out ≡ some (done (out ++ (read_cell c ∷ [])))
unfolding all_fields
all_fields-last f c out p h =
    let e : next_field (print_cell c) ≡ done (read_cell c, []) =
      ap next_field (sym (append-nil (print_cell c))) ∙ next_field-print c [] p refl in
    rw (e, all_fields) (rw (few out (read_cell c) h))

all_fields-more :
    (f : ℕ) (c : Cell) (text : List ℕ) (out : List Cell)
    → IsPrintable c
    → length out < 258
    → all_fields (suc f) (print_cell c ++ (b',' ∷ text)) out
      ≡ all_fields f text (out ++ (read_cell c ∷ []))
unfolding all_fields
all_fields-more f c text out p h =
    rw (next_field-print c (b',' ∷ text) p refl, all_fields) (rw (few out (read_cell c) h))

all_fields-print :
    (f : ℕ) (c : Cell) (cs out : List Cell)
    → All IsPrintable (c ∷ cs)
    → length out + length cs < 258
    → length cs < f
    → all_fields f (print_cells (c ∷ cs)) out ≡ some (done (out ++ map read_cell (c ∷ cs)))
all_fields-print zero c cs out p h k = absurd (omega arith)
all_fields-print (suc f) c [] out (p, ps) h k = all_fields-last f c out p (omega arith)
all_fields-print (suc f) c (d ∷ ds) out (p, ps) h k =
    let more = out ++ (read_cell c ∷ []) in
    let longer = length-append out (read_cell c ∷ []) in
    all_fields-more f c (print_cells (d ∷ ds)) out p (omega arith)
    ∙ (all_fields-print f d ds more ps (omega (arith, longer)) (omega arith)
        ∙ ap (λ l. some (done l)) (append_assoc out (read_cell c ∷ []) (map read_cell (d ∷ ds))))

length-print : (c : Cell) (cs : List Cell) → length cs ≤ length (print_cells (c ∷ cs))
length-print c [] = omega arith
length-print c (d ∷ ds) =
    omega (arith, length-print d ds, length-append (print_cell c) (b',' ∷ print_cells (d ∷ ds)))

-- Up to 258 fields, in quotes or bare, are read as the command that they stand for, a bare field
-- without the blanks around it.
pub csv-print :
    (c : Cell) (cs : List Cell)
    → All IsPrintable (c ∷ cs)
    → length cs < 258
    → csv (print_cells (c ∷ cs)) ≡ some (command (map read_cell (c ∷ cs)))
unfolding csv
csv-print c cs p h = rw (
  all_fields-print (suc (length (print_cells (c ∷ cs)))) c cs [] p (omega arith)
      (omega (arith, length-print c cs)),
  csv,
)

abbrev pub in_quotes : List ℕ → Cell
in_quotes v = (v, true)

abbrev pub last_word : Bool → List Cell
last_word true = (codes "no-replace", false) ∷ []
last_word false = []

-- A command as a line: its menu and its inputs in quotes, and the word no-replace if it has it.
abbrev pub print_command : Command → List ℕ
print_command c =
    print_cells (in_quotes c.menu ∷ (map in_quotes c.inputs ++ last_word c.no_replace))

bare : (cs : List ℕ) → all (λ c. not (c == b',' || c == b'"')) cs ≡ true → All IsBare cs
bare [] h = tt
bare (c ∷ cs) h = ground (arith, bare cs)

line-IsPrintable :
    (vs : List (List ℕ)) (t : Bool) → All IsPrintable (map in_quotes vs ++ last_word t)
line-IsPrintable [] false = tt
line-IsPrintable [] true = (bare (codes "no-replace") refl, tt)
line-IsPrintable (v ∷ vs) t = (tt, line-IsPrintable vs t)

split_temporary-line :
    (m : List ℕ) (vs : List (List ℕ)) (t : Bool)
    → split_temporary (in_quotes m ∷ map read_cell (map in_quotes vs ++ last_word t))
      ≡ (in_quotes m ∷ map in_quotes vs, t)
unfolding split_temporary trim trim_start trim_end
split_temporary-line m [] false = refl
split_temporary-line m [] true = refl
split_temporary-line m (v ∷ vs) t = ap (λ p. (in_quotes m ∷ p.0, p.1)) (split_temporary-line v vs t)

texts-quoted : (vs : List (List ℕ)) → texts (map in_quotes vs) ≡ vs
texts-quoted [] = refl
texts-quoted (v ∷ vs) = ap (λ l. v ∷ l) (texts-quoted vs)

length-line :
    (vs : List (List ℕ)) (t : Bool) → length (map in_quotes vs ++ last_word t) ≤ length vs + 1
length-line [] false = omega arith
length-line [] true = omega arith
length-line (v ∷ vs) t = omega (arith, length-line vs t)

command_lem :
    (m : List ℕ) (cells kept : List Cell) (t : Bool)
    → split_temporary cells ≡ (in_quotes m ∷ kept, t)
    → command cells ≡ done (record { menu = m; inputs = texts kept; no_replace = t })
unfolding command
command_lem m cells kept t e = ap of_split e

-- A command of at most 256 inputs that is printed with its menu and inputs in quotes, whatever bytes
-- they have, and with a last no-replace if it has the flag, is read back unchanged.
pub csv-print_command :
    (c : Command) → length c.inputs ≤ 256 → csv (print_command c) ≡ some (done c)
csv-print_command c h =
    let line = map in_quotes c.inputs ++ last_word c.no_replace in
    let read =
      csv-print (in_quotes c.menu) line (tt, line-IsPrintable c.inputs c.no_replace)
        (omega (arith, length-line c.inputs c.no_replace)) in
    read
    ∙ (ap some (
          command_lem c.menu (map read_cell (in_quotes c.menu ∷ line)) (map in_quotes c.inputs)
            c.no_replace (split_temporary-line c.menu c.inputs c.no_replace))
        ∙ rw texts-quoted)
