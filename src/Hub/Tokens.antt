-- ===== src/Hub/Tokens.antt =====
-- `ExtractRegistryHubTokens` of runtime/source/src/main.cpp: the texts between outermost braces.
pub mod Size
pub mod RoundTrip
use macrohelp.Base.{ℕ, zero, suc, ◌==◌, true, false, List, [], ◌∷◌, ◌++◌, if◌then◌else◌}
use macrohelp.Control.Checked.{Checked, done, thrown, refuse}
use macrohelp.Runtime.Text.{Text, is_space, trim_ascii}

-- One token more at the front.
abbrev pub token_first : Text → Checked (List Text) → Checked (List Text)
token_first t (done ts) = done (t ∷ ts)
token_first t (thrown status message) = thrown status message

-- The loop over the script. `depth` counts the open braces, and `token` is the text since the
-- outermost one.
unfoldable pub scan : ℕ → Text → Text → Checked (List Text)
scan zero token [] = done []
scan (suc d) token [] = refuse "Missing closing brace."
scan zero token (c ∷ cs) = elim (c == b'{') [
  | true ↦ scan 1 [] cs
  | false ↦ if c == b'}' then refuse "Unexpected closing brace." else elim (is_space c) [
    | true ↦ scan zero token cs
    | false ↦ refuse "Use {type text} for literal text."
  ]
]
scan (suc d) token (c ∷ cs) = elim (c == b'{') [
  | true ↦ scan (suc (suc d)) (token ++ (c ∷ [])) cs
  | false ↦ elim (c == b'}') [
    | true ↦ elim d [
      | zero ↦ token_first (trim_ascii token) (scan zero [] cs)
      | suc e ↦ scan (suc e) (token ++ (c ∷ [])) cs
    ]
    | false ↦ scan (suc d) (token ++ (c ∷ [])) cs
  ]
]

unfoldable pub extract_tokens : Text → Checked (List Text)
unfolding scan
extract_tokens script = scan 0 [] script
