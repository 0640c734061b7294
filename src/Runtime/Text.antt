-- ===== src/Runtime/Text.antt =====
-- `TrimAscii` and `LowerAscii` of runtime/source/src/main.cpp, on texts as lists of bytes.
pub mod Words
use Prim.Native.Char.{code}
use macrohelp.Base.{
  ℕ, ◌+◌, String, Bool, true, false, ◌||◌, ◌&&◌, ◌==◌, leb, List, [], ◌∷◌, map, if◌then◌else◌,
}

-- A std::string.
abbrev pub Text : Type 0
Text = List ℕ

-- The bytes of a text that is ASCII.
abbrev pub bytes : String → Text
bytes String.[] = []
bytes (String.◌∷◌ c s) = code c ∷ bytes s

abbrev pub text_eq : Text → Text → Bool
text_eq [] [] = true
text_eq [] (d ∷ ds) = false
text_eq (c ∷ cs) [] = false
text_eq (c ∷ cs) (d ∷ ds) = c == d && text_eq cs ds

-- `rfind(p, 0) == 0`.
abbrev pub starts_with : Text → Text → Bool
starts_with [] cs = true
starts_with (p ∷ ps) [] = false
starts_with (p ∷ ps) (c ∷ cs) = p == c && starts_with ps cs

-- `isspace` and `tolower` in the C locale.
abbrev pub is_space : ℕ → Bool
is_space c = c == 32 || (leb 9 c && leb c 13)

abbrev pub to_lower : ℕ → ℕ
to_lower c = if leb b'A' c && leb c b'Z' then c + 32 else c

unfoldable pub trim_start : Text → Text
trim_start [] = []
trim_start (c ∷ cs) = if is_space c then trim_start cs else c ∷ cs

-- A byte before a text whose spaces at the end are gone.
abbrev pub put : ℕ → Text → Text
put c [] = if is_space c then [] else c ∷ []
put c (d ∷ ds) = c ∷ d ∷ ds

unfoldable pub trim_end : Text → Text
trim_end [] = []
trim_end (c ∷ cs) = put c (trim_end cs)

unfoldable pub trim_ascii : Text → Text
unfolding trim_start trim_end
trim_ascii t = trim_end (trim_start t)

unfoldable pub lower_ascii : Text → Text
lower_ascii = map to_lower
