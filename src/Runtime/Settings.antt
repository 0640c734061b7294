-- ===== src/Runtime/Settings.antt =====
-- The lines of an exported environment, as `ImportRegistryHubEnvironment` of
-- runtime/source/src/main.cpp reads them.
use macrohelp.Base.{ℕ, ◌==◌, Bool, true, false, Option, none, some, List, [], ◌∷◌, if◌then◌else◌}
use macrohelp.Runtime.Text.{Text, trim_ascii}
use macrohelp.Runtime.Escapes.{unescape_value}

-- `getline` over a text: a last line needs no end.
abbrev put_first : ℕ → List Text → List Text
put_first c [] = (c ∷ []) ∷ []
put_first c (l ∷ ls) = (c ∷ l) ∷ ls

unfoldable pub lines_of : Text → List Text
lines_of [] = []
lines_of (c ∷ cs) = if c == 10 then [] ∷ lines_of cs else put_first c (lines_of cs)

unfoldable pub without_return : Text → Text
without_return [] = []
without_return (c ∷ []) = if c == 13 then [] else c ∷ []
without_return (c ∷ d ∷ cs) = c ∷ without_return (d ∷ cs)

-- What stands before and behind the first `=`.
unfoldable pub split_at_equals : Text → Option (Text × Text)
split_at_equals [] = none
split_at_equals (c ∷ cs) = elim (c == b'=') [
  | true ↦ some ([], cs)
  | false ↦ elim (split_at_equals cs) [ none ↦ none | some (l, r) ↦ some (c ∷ l, r) ]
]

abbrev pub is_comment : Text → Bool
is_comment [] = true
is_comment (c ∷ cs) = c == b'#'

-- The name, not yet in lower case, and the value of a line that has them.
unfoldable pub read_line : Text → Option (Text × Text)
unfolding without_return trim_ascii split_at_equals unescape_value
read_line raw =
    let line = without_return raw in
    elim (is_comment (trim_ascii line)) [
      | true ↦ none
      | false ↦ elim (split_at_equals line) [
        | none ↦ none
        | some (name, v) ↦ some (trim_ascii name, unescape_value v)
      ]
    ]

unfoldable pub read_lines : List Text → List (Text × Text)
unfolding read_line
read_lines [] = []
read_lines (l ∷ ls) = elim (read_line l) [
  | none ↦ read_lines ls
  | some setting ↦ setting ∷ read_lines ls
]
