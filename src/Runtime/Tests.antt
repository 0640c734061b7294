-- ===== src/Runtime/Tests.antt =====
-- The theorems about the runtime's texts at concrete inputs.
use macrohelp.Base.{ℕ, ◌==◌, Bool, false, ◌||◌, none, some, [], ◌∷◌, ◌++◌, drop, ◌≡◌, refl, arith}
use macrohelp.Runtime.Text.{bytes, is_space}
use macrohelp.Runtime.Escapes.{escape_value, escape_json, json_string, json_string-control}
use macrohelp.Runtime.Quoting.{
  rgd_argument, read_quoted, quote_process_arg, read_argument, read_argument-quote_process_arg,
  powershell_literal, read_literal, read-powershell_literal, read-rgd_argument,
}
use macrohelp.Runtime.Brackets.{
  find_matching, quoted, opening, plain, closing, find_matching-pieces,
}
use macrohelp.Runtime.Base64.{base64, decode, units, powershell_command, units-powershell_command}

escaped : escape_value (b'a' ∷ 10 ∷ b'\\' ∷ b'n' ∷ []) ≡ bytes "a\\n\\\\n"
unfolding escape_value
escaped = refl

-- A byte 1 is written as it is.
control_byte : json_string false (escape_json (1 ∷ []) ++ (b'"' ∷ [])) ≡ none
control_byte = json_string-control (1 ∷ []) [] refl

-- With the ideographic space.
abbrev unicode_space : ℕ → Bool
unicode_space c = is_space c || c == 12288

read_argument_example :
    read_argument (quote_process_arg unicode_space (bytes "a b\\") ++ (32 ∷ bytes "c"))
    ≡ some (bytes "a b\\", 32 ∷ bytes "c")
read_argument_example =
    read_argument-quote_process_arg unicode_space (λ c e. ground (arith, e)) (bytes "a b\\")
      (bytes "c")

backslash_doubled : quote_process_arg unicode_space (bytes "a b\\") ≡ bytes "\"a b\\\\\""
unfolding quote_process_arg
backslash_doubled = refl

read-rgd_argument_example :
    read_quoted 0 (drop 1 (rgd_argument (bytes "x\"y")) ++ []) ≡ some (bytes "x\"y", [])
read-rgd_argument_example = read-rgd_argument (bytes "x\"y") []

read-powershell_literal_example :
    read_literal false (drop 1 (powershell_literal (bytes "it's")) ++ bytes ";")
    ≡ some (bytes "it's", bytes ";")
read-powershell_literal_example = read-powershell_literal (bytes "it's") (bytes ";") refl

units-powershell_command_example :
    units (decode (powershell_command (104 ∷ 8594 ∷ []))) ≡ 104 ∷ 8594 ∷ []
units-powershell_command_example =
    units-powershell_command (104 ∷ 8594 ∷ []) (omega arith, (omega arith, tt))

encoded : base64 (bytes "Ma") ≡ bytes "TWE="
unfolding base64
encoded = refl

find_matching-pieces_example :
    find_matching b'[' b']' (bytes "[\"a]\"[1]],2]") ≡ some (bytes "\"a]\"[1]", bytes ",2]")
unfolding escape_json
find_matching-pieces_example =
    find_matching-pieces b'[' b']' (quoted (bytes "a]") ∷ opening ∷ plain b'1' ∷ closing ∷ [])
      (bytes ",2]") refl refl
