-- ===== src/Hub/Branches.antt =====
-- `RegistryHubBranchFrame` and `RegistryHubBranchesActive` of runtime/source/src/main.cpp, and
-- `ValidateRegistryStructure` of registry_rgd.inc. The last branch of a vector is the first here.
pub mod Nesting
use macrohelp.Base.{ltb, Bool, true, false, ◌||◌, ◌&&◌, not, List, [], ◌∷◌, length, if◌then◌else◌}
use macrohelp.Control.Checked.{Checked, done, refuse}
use macrohelp.Runtime.Text.{Text, bytes, text_eq, starts_with, trim_ascii, lower_ascii}

-- How a token bears on the branches.
pub data Kind : Type 0 where
  opening switching closing plain : Kind

-- Of a token's trimmed text in lower case.
unfoldable pub kind_of_lower : Text → Kind
kind_of_lower lower =
    if starts_with (bytes "if ") lower
    then opening
    else if text_eq lower (bytes "else")
    then switching
    else if text_eq lower (bytes "endif") || text_eq lower (bytes "end if")
    then closing
    else plain

unfoldable pub kind_of : Text → Kind
unfolding kind_of_lower
kind_of token = kind_of_lower (lower_ascii (trim_ascii token))

pub record Frame : Type 0 where
  pub parent_active : Bool
  pub condition_active : Bool
  pub else_mode : Bool

unfoldable pub branches_active : List Frame → Bool
branches_active [] = true
branches_active (f ∷ fs) =
    f.parent_active && (if f.else_mode then not f.condition_active else f.condition_active)

-- The loop of `ValidateRegistryStructure`: for each open branch, whether its {else} has come.
unfoldable pub validate_from : List Text → List Bool → Checked (Unit {0})
validate_from [] [] = done tt
validate_from [] (b ∷ bs) = refuse "Registry Hub script has an unclosed {if ...}."
validate_from (t ∷ ts) bs = elim (kind_of t) [
  | opening ↦
      if ltb (length bs) 16
      then validate_from ts (false ∷ bs)
      else refuse "Conditions nested too deeply"
  | switching ↦ elim bs [
    | [] ↦ refuse "Unexpected {else}."
    | b ∷ cs ↦ if b then refuse "Unexpected {else}." else validate_from ts (true ∷ cs)
  ]
  | closing ↦ elim bs [ [] ↦ refuse "Unexpected {endif}." | b ∷ cs ↦ validate_from ts cs ]
  | plain ↦ validate_from ts bs
]

unfoldable pub validate : List Text → Checked (Unit {0})
unfolding validate_from kind_of
validate tokens = validate_from tokens []
