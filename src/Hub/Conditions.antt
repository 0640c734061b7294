-- ===== src/Hub/Conditions.antt =====
-- `EvaluateRegistryHubCondition` and `ResolveRegistryHubOperand` of runtime/source/src/main.cpp. The
-- named values, the conditions on tasks and the `double`s that texts are read as are parameters.
pub mod Occurs
pub mod Meaning
pub mod Operands
use macrohelp.Base.{
  ℕ, ◌==◌, String, Bool, true, false, ◌||◌, ◌&&◌, not, Option, none, some, List, [], ◌∷◌, ◌++◌,
  length, drop, any, map, is_some, if◌then◌else◌,
}
use macrohelp.Runtime.Text.{Text, bytes, text_eq, starts_with, trim_ascii, lower_ascii}
use macrohelp.Runtime.Arguments.{split_args}
use macrohelp.Hub.Host.{Host, Reply, answer, rejected, raised}

-- `LookupScriptTextValue`, `EvaluateTasketDaemonCondition`, `TryParseDoubleStrict`, and the tests on
-- two `double`s: within 10^-7, at least 10^-7 apart, less, and less or equal.
pub record Sources (N : Type 0) : Type 0 where
  pub lookup : Text → Option Text
  pub task_condition : List Text → Reply Bool
  pub number : Text → Option N
  pub near : N → N → Bool
  pub apart : N → N → Bool
  pub less : N → N → Bool
  pub less_equal : N → N → Bool

-- What follows the first place where a text stands in another, as `find` has it.
unfoldable pub after_first : Text → Text → Option Text
after_first p [] = if starts_with p [] then some [] else none
after_first p (c ∷ cs) =
    let later = after_first p cs in
    if starts_with p (c ∷ cs) then some (drop (length p) (c ∷ cs)) else later

unfoldable pub contains_text : Text → Text → Bool
unfolding after_first
contains_text p t = is_some (after_first p t)

abbrev pub is_one_of : Text → List String → Bool
is_one_of t [] = false
is_one_of t (w ∷ ws) = text_eq t (bytes w) || is_one_of t ws

abbrev pub is_blank : Text → Bool
is_blank [] = true
is_blank (c ∷ cs) = false

abbrev left_unknown : Text
left_unknown = bytes "{if ...} left operand must be A/S/D/F/Z/X/C/V, $name, or literal text."

abbrev operator_unknown : Text
operator_unknown =
    bytes "Unknown {if ...} operator. Use contains, ==, !=, >, >=, <, <=, empty, or notempty."

module _ {N : Type 0} (s : Sources N) where
  abbrev named_or_literal : Text → Text
  named_or_literal t = elim (s.lookup t) [ some v ↦ v | none ↦ t ]

  -- Of a trimmed text.
  unfoldable pub resolve_trimmed : Text → Option Text
  resolve_trimmed [] = some []
  resolve_trimmed (c ∷ cs) = if c == b'$' then s.lookup cs else some (named_or_literal (c ∷ cs))

  unfoldable pub resolve : Text → Option Text
  unfolding resolve_trimmed
  resolve raw = resolve_trimmed (trim_ascii raw)

  -- Both operands as numbers.
  unfoldable pub numeric : Text → Text → Option (N × N)
  numeric left right = elim (s.number left) [
    | none ↦ none
    | some l ↦ elim (s.number right) [ none ↦ none | some r ↦ some (l, r) ]
  ]

  abbrev pub by_numbers : (N → N → Bool) → Option (N × N) → Bool → Bool
  by_numbers test none otherwise = otherwise
  by_numbers test (some (l, r)) otherwise = test l r

  abbrev pub ordered : (N → N → Bool) → Option (N × N) → Reply Bool
  ordered test none = rejected (bytes "Numeric {if ...} comparison needs numeric operands.")
  ordered test (some (l, r)) = answer (test l r)

  -- The operators with two operands, in the order of the source.
  unfoldable pub compare_operands : Text → Text → Text → Reply Bool
  unfolding contains_text numeric
  compare_operands op left right =
      if is_one_of op ("contains" ∷ "~" ∷ "has" ∷ [])
      then answer (contains_text (lower_ascii right) (lower_ascii left))
      else if is_one_of op ("notcontains" ∷ "!contains" ∷ "!~" ∷ "lacks" ∷ [])
      then answer (not (contains_text (lower_ascii right) (lower_ascii left)))
      else if is_one_of op ("==" ∷ "=" ∷ "eq" ∷ [])
      then answer (by_numbers s.near (numeric left right) (text_eq left right))
      else if is_one_of op ("!=" ∷ "<>" ∷ "ne" ∷ [])
      then answer (by_numbers s.apart (numeric left right) (not (text_eq left right)))
      else if is_one_of op (">" ∷ "gt" ∷ [])
      then ordered (λ l r. s.less r l) (numeric left right)
      else if is_one_of op (">=" ∷ "gte" ∷ [])
      then ordered (λ l r. s.less_equal r l) (numeric left right)
      else if is_one_of op ("<" ∷ "lt" ∷ [])
      then ordered s.less (numeric left right)
      else if is_one_of op ("<=" ∷ "lte" ∷ [])
      then ordered s.less_equal (numeric left right)
      else rejected operator_unknown

  -- The right operand: what follows the first place of the operator in the whole text.
  unfoldable pub right_operand : Text → Text → Text → Text → Reply Bool
  unfolding after_first resolve compare_operands
  right_operand body given op left = elim (after_first given body) [
    | none ↦ rejected (bytes "{if ...} could not read operator.")
    | some rest ↦ elim (resolve (trim_ascii rest)) [
      | none ↦ rejected (bytes "{if ...} right operand could not be resolved.")
      | some right ↦ compare_operands op left right
    ]
  ]

  -- The operator and the arguments after it.
  unfoldable pub with_left : Text → Text → List Text → Text → Reply Bool
  unfolding right_operand
  with_left body given others left =
      let op = lower_ascii given in
      if text_eq op (bytes "empty")
      then answer (is_blank (trim_ascii left))
      else if text_eq op (bytes "notempty")
      then answer (not (is_blank (trim_ascii left)))
      else elim others [
        | [] ↦ rejected (bytes "{if ...} needs a right operand for this operator.")
        | t ∷ ts ↦ right_operand body given op left
      ]

  abbrev pub is_task_word : Text → Bool
  is_task_word head =
      is_one_of (lower_ascii head)
        ("task" ∷ "saved-task" ∷ "savedtask" ∷ "saved-tasks" ∷ "savedtasks" ∷ [])

  unfoldable pub with_args : Text → List Text → Reply Bool
  unfolding with_left resolve
  with_args body [] = rejected (bytes "{if ...} needs left operand and operator.")
  with_args body (a ∷ []) = rejected (bytes "{if ...} needs left operand and operator.")
  with_args body (a ∷ b ∷ others) =
      if is_task_word a then s.task_condition (a ∷ b ∷ others) else elim (resolve a) [
        | none ↦ rejected left_unknown
        | some left ↦ with_left body b others left
      ]

  unfoldable pub evaluate : Text → Reply Bool
  unfolding with_args split_args
  evaluate expression = let body = trim_ascii expression in with_args body (split_args body)

-- A host whose conditions are these, over the values in its state.
abbrev pub with_conditions : {G A N : Type 0} → (G → Sources N) → Host G A → Host G A
with_conditions values h = record h { evaluate = λ t g. (g, evaluate (values g) t) }
