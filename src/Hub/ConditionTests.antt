-- ===== src/Hub/ConditionTests.antt =====
-- The theorems about conditions at concrete inputs: `$n` is 7, and texts of one digit are numbers.
use macrohelp.Base.{
  List, ℕ, ltb, leb, ◌==◌, ◌-◌, true, false, ◌&&◌, not, Option, none, some, [], ◌∷◌, ◌++◌, ◌≡◌, inl,
  refl, arith, if◌then◌else◌,
}
use macrohelp.Runtime.Text.{Text, bytes, text_eq, trim_ascii, lower_ascii}
use macrohelp.Runtime.Arguments.{split_args, split_from}
use macrohelp.Runtime.Arguments.RoundTrip.{split_args-print, print_args}
use macrohelp.Hub.Host.{cancelled, refused, Host, answer, rejected}
use macrohelp.Hub.Conditions.{
  with_conditions, Sources, evaluate, resolve, resolve_trimmed, after_first,
}
use macrohelp.Hub.Segment.Whole.{Script, scripted, unscripted, busy, never, compile_script}
use macrohelp.Hub.Conditions.Meaning.{at_least, Means}
use macrohelp.Hub.Conditions.Operands.{evaluate-written, written}

abbrev one_digit : Text → Option ℕ
one_digit [] = none
one_digit (c ∷ []) = if leb b'0' c && leb c b'9' then some (c - b'0') else none
one_digit (c ∷ d ∷ cs) = none

abbrev small : Sources ℕ
small = record {
  lookup = λ t. if text_eq t (bytes "n") then some (bytes "7") else none;
  task_condition = λ args. rejected [];
  number = one_digit;
  near = λ a b. a == b;
  apart = λ a b. not (a == b);
  less = ltb;
  less_equal = leb;
}

evaluate-written_example :
    Means small at_least
      (bytes "7")
      (bytes "5")
      (evaluate small (written (bytes "$n") (bytes ">=") (bytes "5")))
unfolding trim_ascii lower_ascii split_args split_from after_first resolve resolve_trimmed
evaluate-written_example =
    evaluate-written small at_least (bytes "$n") (bytes ">=") (bytes "5") (bytes "7") (bytes "5")
      (bytes "5") [] (inl refl) (refl, λ e. ground (arith, e)) (refl, λ e. ground (arith, e)) refl
      refl refl refl refl refl

seven_at_least_five : evaluate small (bytes "$n >= 5") ≡ answer true
unfolding evaluate trim_ascii lower_ascii
seven_at_least_five = refl

-- The operator is looked for in the whole text: the left word has it here, and the condition fails
-- though the word contains the right operand.
operator_in_left : evaluate small (bytes "hash has as") ≡ answer false
unfolding evaluate trim_ascii lower_ascii
operator_in_left = refl

other_operator : evaluate small (bytes "hash contains as") ≡ answer true
unfolding evaluate trim_ascii lower_ascii
other_operator = refl

split_args-print_example :
    split_args (print_args (bytes "a b" ∷ bytes "c\"d" ∷ [])) ≡ bytes "a b" ∷ bytes "c\"d" ∷ []
unfolding trim_ascii
split_args-print_example =
    split_args-print (bytes "a b" ∷ bytes "c\"d" ∷ [])
      ((λ e. ground (arith, e), refl), ((λ e. ground (arith, e), refl), tt))

-- A host that emits every token, and reads and submits nothing.
abbrev emitting : Host (Unit {0}) Text
emitting = record {
  evaluate = λ t g. (g, rejected []);
  compile_token = λ t actions focus g. (g, answer (actions ++ (t ∷ []), focus));
  expand = λ g t. t;
  file_path = λ g. [];
  read_rgd = λ file reference g. (g, cancelled);
  schedule = λ d g. (g, refused []);
}

emitted_actions : Script Text → List Text
emitted_actions (scripted (some d) c) = d.actions
emitted_actions (scripted none c) = []
emitted_actions (unscripted message) = []
emitted_actions busy = []
emitted_actions never = []

-- Only the branch whose condition holds is compiled.
taken_branch :
    emitted_actions (
      compile_script
        (with_conditions (λ g. small) emitting)
        (λ d. none)
        (bytes "{if $n >= 5} {a} {if $n == 6} {b} {endif} {else} {c} {endif} {d}")
        false
        tt)
    ≡ bytes "a" ∷ bytes "d" ∷ []
unfolding emitted_actions compile_script evaluate trim_ascii lower_ascii
taken_branch = refl
