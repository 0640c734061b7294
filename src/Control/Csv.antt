-- ===== src/Control/Csv.antt =====
-- `csv` of control_protocol.hpp: a control request as one line of fields.
pub mod Termination
pub mod Fields
pub mod RoundTrip
use mathlib.Core.Option
use macrohelp.Base.{
  ℕ, zero, suc, ltb, ◌==◌, String, Option, none, some, Bool, true, false, ◌&&◌, not, List, [], ◌∷◌,
  ◌++◌, length, if◌then◌else◌,
}
use macrohelp.Control.Checked.{Checked, done, thrown, then_with, refuse}
use macrohelp.Control.Text.{codes, same_text, trim}

-- A field, and whether it was in quotes.
abbrev pub Cell : Type 0
Cell = List ℕ × Bool

-- A field with the text after it.
abbrev pub Scanned : Type 0
Scanned = Cell × List ℕ

-- One byte more at the front of a value.
abbrev push_front : ℕ → Option (List ℕ × List ℕ) → Option (List ℕ × List ℕ)
push_front c none = none
push_front c (some (v, rest)) = some (c ∷ v, rest)

-- The loop inside quotes; after a quote the flag is set, and a second one stands for itself.
unfoldable pub quoted : Bool → List ℕ → Option (List ℕ × List ℕ)
quoted false [] = none
quoted true [] = some ([], [])
quoted false (c ∷ cs) = elim (c == b'"') [
  | true ↦ quoted true cs
  | false ↦ push_front c (quoted false cs)
]
quoted true (c ∷ cs) = elim (c == b'"') [
  | true ↦ push_front b'"' (quoted false cs)
  | false ↦ some ([], c ∷ cs)
]

unfoldable pub skip_blanks : List ℕ → List ℕ
skip_blanks [] = []
skip_blanks (c ∷ cs) =
    if c == b' ' then skip_blanks cs else if c == 9 then skip_blanks cs else c ∷ cs

abbrev pub at_separator : List ℕ → Bool
at_separator [] = true
at_separator (c ∷ cs) = c == b','

abbrev push_byte : ℕ → Checked (List ℕ × List ℕ) → Checked (List ℕ × List ℕ)
push_byte c (done (v, rest)) = done (c ∷ v, rest)
push_byte c (thrown status message) = thrown status message

-- The loop outside quotes.
unfoldable pub plain : List ℕ → Checked (List ℕ × List ℕ)
plain [] = done ([], [])
plain (c ∷ cs) =
    let rest = plain cs in
    if c == b','
    then done ([], c ∷ cs)
    else if c == b'"'
    then refuse "Quote the entire CSV field"
    else push_byte c rest

abbrev closed : Option (List ℕ × List ℕ) → Checked Scanned
closed none = refuse "Unclosed CSV quote"
closed (some (v, rest)) =
    if at_separator (skip_blanks rest)
    then done ((v, true), skip_blanks rest)
    else refuse "Expected a comma after the quoted field"

abbrev trimmed : Checked (List ℕ × List ℕ) → Checked Scanned
trimmed (done (v, rest)) = done ((trim v, false), rest)
trimmed (thrown status message) = thrown status message

unfoldable pub next_field : List ℕ → Checked Scanned
unfolding quoted plain skip_blanks
next_field [] = trimmed (plain [])
next_field (c ∷ cs) = elim (c == b'"') [
  | true ↦ closed (quoted false cs)
  | false ↦ trimmed (plain (c ∷ cs))
]

-- The outer loop, with fuel for its rounds: `none` means that the fuel ran out.
unfoldable pub all_fields : ℕ → List ℕ → List Cell → Option (Checked (List Cell))
unfolding next_field
all_fields zero text out = none
all_fields (suc f) text out = elim (next_field text) [
  | thrown status message ↦ some (thrown status message)
  | done (cell, rest) ↦
      if ltb 258 (length (out ++ (cell ∷ []))) then some (refuse "Too many inputs") else elim rest [
        | [] ↦ some (done (out ++ (cell ∷ [])))
        | c ∷ cs ↦ all_fields f cs (out ++ (cell ∷ []))
      ]
]

-- The request that the fields stand for.
pub record Command : Type 0 where
  pub menu : List ℕ
  pub inputs : List (List ℕ)
  pub no_replace : Bool

abbrev pub is_temporary : Cell → Bool
is_temporary (v, in_quotes) = not in_quotes && same_text v (codes "no-replace")

-- The fields without a last `no-replace`, and whether it was there.
unfoldable pub split_temporary : List Cell → List Cell × Bool
split_temporary [] = ([], false)
split_temporary (c ∷ []) = if is_temporary c then ([], true) else (c ∷ [], false)
split_temporary (c ∷ d ∷ ds) = let (cs, t) = split_temporary (d ∷ ds) in (c ∷ cs, t)

abbrev pub texts : List Cell → List (List ℕ)
texts [] = []
texts ((v, q) ∷ cs) = v ∷ texts cs

abbrev pub of_split : List Cell × Bool → Checked Command
of_split ([], temporary) = refuse "Choose a menu"
of_split ((v, q) ∷ cs, temporary) =
    done (record { menu = v; inputs = texts cs; no_replace = temporary })

unfoldable pub command : List Cell → Checked Command
unfolding split_temporary
command cells = of_split (split_temporary cells)

unfoldable pub csv : List ℕ → Option (Checked Command)
unfolding all_fields command
csv text = Option.map (λ c. then_with c command) (all_fields (suc (length text)) text [])
