-- ===== src/Runtime/Places.antt =====
-- The names of the places in the Registry Hub's arrays, in runtime/source/src/main.cpp:
-- `RegistryVarIndexFromCommand`, `PasteBufferSlotFromCommand` and `RegistryPointIndexFromCommand`.
use macrohelp.Base.{
  ℕ, ◌-◌, ◌==◌, ltb, ℤ, pos, ◌&&◌, ◌||◌, not, Option, none, some, [], drop, select, length, all,
  if◌then◌else◌,
}
use macrohelp.Runtime.Text.{Text, bytes, text_eq, starts_with, is_space, trim_ascii, lower_ascii}
use macrohelp.Runtime.Decimal.{is_digit, atoi}

unfoldable pub var_slot : Text → Option ℕ
unfolding trim_ascii lower_ascii
var_slot command =
    let key = lower_ascii (trim_ascii command) in
    if text_eq key (bytes "a")
    then some 0
    else if text_eq key (bytes "s")
    then some 1
    else if text_eq key (bytes "d")
    then some 2
    else if text_eq key (bytes "f")
    then some 3
    else none

unfoldable pub paste_slot : Text → Option ℕ
paste_slot command =
    if text_eq command (bytes "z")
    then some 0
    else if text_eq command (bytes "x")
    then some 1
    else if text_eq command (bytes "c")
    then some 2
    else if text_eq command (bytes "v")
    then some 3
    else none

-- A point's number from 1 to 16, with or without its word.
abbrev without_word : Text → Text
without_word t =
    if starts_with (bytes "point") t
    then drop 5 t
    else if starts_with (bytes "p") t && ltb 1 (length t)
    then drop 1 t
    else t

abbrev pub in_range : ℤ → Option ℕ
in_range (pos n) = if ltb n 1 || ltb 16 n then none else some (n - 1)
in_range _ = none

unfoldable pub point_number : Text → Option ℕ
unfolding atoi
point_number t = if text_eq t [] then none else if all is_digit t then in_range (atoi t) else none

-- The name without its word and without spaces, `_` and `-`.
unfoldable pub compact_name : Text → Text
unfolding trim_ascii lower_ascii
compact_name command =
    without_word (
      select (λ c. not (c == b'_' || (c == b'-' || is_space c))) (lower_ascii (trim_ascii command)))

unfoldable pub point_index : Text → Option ℕ
unfolding point_number compact_name
point_index command = point_number (compact_name command)
