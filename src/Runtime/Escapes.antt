-- ===== src/Runtime/Escapes.antt =====
-- `EscapeRegistryHubExportValue`, `UnescapeRegistryHubExportValue` and `EscapeJsonString` of
-- runtime/source/src/main.cpp, with a reader of JSON strings beside the last.
use macrohelp.Base.{
  ℕ, ◌==◌, ltb, Bool, true, false, ◌||◌, not, Option, none, some, [], ◌∷◌, ◌++◌, if◌then◌else◌, ◌≡◌,
  refl, arith, all, ap, ◌∙◌, append_assoc,
}
use macrohelp.Runtime.Text.{Text}

unfoldable pub escape_byte : ℕ → Text
escape_byte c =
    if c == b'\\'
    then b'\\' ∷ b'\\' ∷ []
    else if c == 13
    then b'\\' ∷ b'r' ∷ []
    else if c == 10
    then b'\\' ∷ b'n' ∷ []
    else if c == 9
    then b'\\' ∷ b't' ∷ []
    else c ∷ []

unfoldable pub escape_value : Text → Text
unfolding escape_byte
escape_value [] = []
escape_value (c ∷ cs) = escape_byte c ++ escape_value cs

-- What a byte stands for after a backslash.
unfoldable pub unescape_byte : ℕ → Text
unescape_byte c =
    if c == b'r'
    then 13 ∷ []
    else if c == b'n'
    then 10 ∷ []
    else if c == b't'
    then 9 ∷ []
    else if c == b'\\'
    then b'\\' ∷ []
    else b'\\' ∷ c ∷ []

-- The loop; the flag says that a backslash came before.
unfoldable pub unescape_from : Bool → Text → Text
unfolding unescape_byte
unescape_from false [] = []
unescape_from true [] = b'\\' ∷ []
unescape_from false (c ∷ cs) = elim (c == b'\\') [
  | true ↦ unescape_from true cs
  | false ↦ c ∷ unescape_from false cs
]
unescape_from true (c ∷ cs) = unescape_byte c ++ unescape_from false cs

unfoldable pub unescape_value : Text → Text
unfolding unescape_from
unescape_value = unescape_from false

-- Every value is read back from its escaped form.
pub unescape-escape : (v : Text) → unescape_value (escape_value v) ≡ v
unfolding unescape_value unescape_from unescape_byte escape_value escape_byte
unescape-escape [] = refl
unescape-escape (c ∷ cs) = ground (arith, unescape-escape cs)

abbrev pub is_line_end : ℕ → Bool
is_line_end c = c == 13 || c == 10

-- An escaped value is on one line.
pub escape_one_line : (v : Text) → all (λ c. not (is_line_end c)) (escape_value v) ≡ true
unfolding escape_value escape_byte
escape_one_line [] = refl
escape_one_line (c ∷ cs) = ground (arith, escape_one_line cs)

unfoldable pub json_byte : ℕ → Text
json_byte c =
    if c == b'\\'
    then b'\\' ∷ b'\\' ∷ []
    else if c == b'"'
    then b'\\' ∷ b'"' ∷ []
    else if c == 8
    then b'\\' ∷ b'b' ∷ []
    else if c == 12
    then b'\\' ∷ b'f' ∷ []
    else if c == 10
    then b'\\' ∷ b'n' ∷ []
    else if c == 13
    then b'\\' ∷ b'r' ∷ []
    else if c == 9
    then b'\\' ∷ b't' ∷ []
    else c ∷ []

unfoldable pub escape_json : Text → Text
unfolding json_byte
escape_json [] = []
escape_json (c ∷ cs) = json_byte c ++ escape_json cs

-- The byte of a short escape in JSON.
unfoldable pub short_escape : ℕ → Option ℕ
short_escape c =
    if c == b'"' || c == b'\\' || c == b'/'
    then some c
    else if c == b'b'
    then some 8
    else if c == b'f'
    then some 12
    else if c == b'n'
    then some 10
    else if c == b'r'
    then some 13
    else if c == b't'
    then some 9
    else none

abbrev pub put_before : Option ℕ → Option (Text × Text) → Option (Text × Text)
put_before (some c) (some (v, rest)) = some (c ∷ v, rest)
put_before none _ = none
put_before (some c) none = none

-- A JSON string from after its opening quote, and what follows its closing quote. A byte under 32 has
-- no place in it; `\u` is left out.
unfoldable pub json_string : Bool → Text → Option (Text × Text)
unfolding short_escape
json_string false [] = none
json_string true [] = none
json_string true (c ∷ cs) = put_before (short_escape c) (json_string false cs)
json_string false (c ∷ cs) = elim (c == b'"') [
  | true ↦ some ([], cs)
  | false ↦ elim (c == b'\\') [
    | true ↦ json_string true cs
    | false ↦ elim (ltb c 32) [ true ↦ none | false ↦ put_before (some c) (json_string false cs) ]
  ]
]

-- A byte that JSON has a short escape for, or none is needed.
abbrev pub has_escape : ℕ → Bool
has_escape c = not (ltb c 32) || (c == 8 || (c == 9 || (c == 10 || (c == 12 || c == 13))))

json_string-byte :
    (c : ℕ) (cs : Text)
    → has_escape c ≡ true
    → json_string false (json_byte c ++ cs) ≡ put_before (some c) (json_string false cs)
unfolding json_string short_escape json_byte
json_string-byte c cs h = ground (arith, h)

-- The escaped form, with its closing quote, is a JSON string for the text, if the text has no control
-- byte but those with a short escape.
pub json_string-escape :
    (v rest : Text)
    → all has_escape v ≡ true
    → json_string false (escape_json v ++ (b'"' ∷ rest)) ≡ some (v, rest)
unfolding json_string escape_json
json_string-escape [] rest h = refl
json_string-escape (c ∷ cs) rest h =
    ap (json_string false) (append_assoc (json_byte c) (escape_json cs) (b'"' ∷ rest))
    ∙ (json_string-byte c (escape_json cs ++ (b'"' ∷ rest)) (ground (arith, h))
        ∙ ap (put_before (some c)) (json_string-escape cs rest (ground (arith, h))))

-- Any other control byte is written as it is, which JSON refuses.
pub json_string-control :
    (v rest : Text)
    → all has_escape v ≡ false
    → json_string false (escape_json v ++ (b'"' ∷ rest)) ≡ none
unfolding json_string short_escape escape_json json_byte
json_string-control [] rest h = ground (arith, h)
json_string-control (c ∷ cs) rest h = ground (arith, json_string-control cs rest)
