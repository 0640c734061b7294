-- ===== src/Runtime/Arguments.antt =====
-- `SplitScriptArgs` of runtime/source/src/main.cpp.
pub mod RoundTrip
use macrohelp.Base.{ℕ, ◌==◌, Bool, true, false, ◌||◌, ◌&&◌, not, List, [], ◌∷◌, ◌++◌, if◌then◌else◌}
use macrohelp.Runtime.Text.{Text, is_space, trim_ascii}

-- The argument that ends here, unless it is empty.
abbrev pub put_argument : Text → List Text → List Text
put_argument [] rest = rest
put_argument (c ∷ cs) rest = (c ∷ cs) ∷ rest

abbrev pub is_separator : ℕ → Bool
is_separator c = is_space c || c == b','

-- The loop, with its flags for a backslash before and for an open quote.
unfoldable pub split_from : Bool → Bool → Text → Text → List Text
split_from escaped quote cur [] = put_argument (trim_ascii cur) []
split_from true quote cur (c ∷ cs) = split_from false quote (cur ++ (c ∷ [])) cs
split_from false quote cur (c ∷ cs) = elim (c == b'\\' && quote) [
  | true ↦ split_from true quote cur cs
  | false ↦ elim (c == b'"') [
    | true ↦ split_from false (not quote) cur cs
    | false ↦ elim (not quote && is_separator c) [
      | true ↦ put_argument (trim_ascii cur) (split_from false quote [] cs)
      | false ↦ split_from false quote (cur ++ (c ∷ [])) cs
    ]
  ]
]

unfoldable pub split_args : Text → List Text
unfolding split_from
split_args = split_from false false []
