-- ===== src/Hub/Conditions/Operands.antt =====
-- What a condition of two operands, as it is written, means.
use macrohelp.Base.{
  true, false, some, List, [], ◌∷◌, ◌++◌, all, ◌≡◌, ◌≢◌, refl, ap, ◌∙◌, subst, sym,
}
use macrohelp.Runtime.Text.{Text, bytes, text_eq, trim_ascii, lower_ascii}
use macrohelp.Runtime.Arguments.{split_args}
use macrohelp.Runtime.Arguments.RoundTrip.{is_plain, split_args-word}
use macrohelp.Hub.Conditions.{
  Sources, after_first, resolve, compare_operands, right_operand, with_left, with_args, evaluate,
  is_task_word,
}
use macrohelp.Hub.Conditions.Meaning.{Comparison, words, IsOneOf, Means, words-Serve}

-- A condition of three parts, as it is written.
abbrev pub written : Text → Text → Text → Text
written left op right = left ++ (32 ∷ (op ++ (32 ∷ right)))

-- An operand or an operator in one word.
abbrev pub IsWord : Text → Type 0
IsWord w = (all is_plain w ≡ true) × (w ≢ [])

split_args-written :
    (left op right : Text)
    → IsWord left
    → IsWord op
    → split_args (written left op right) ≡ left ∷ op ∷ split_args right
split_args-written left op right (hl, el) (ho, eo) =
    split_args-word left (op ++ (32 ∷ right)) hl el
    ∙ ap (λ r. left ∷ r) (split_args-word op right ho eo)

module _ {N : Type 0} (s : Sources N) where
  evaluate-compare :
      (left op right l r first : Text) (others : List Text)
      → IsWord left
      → IsWord op
      → trim_ascii (written left op right) ≡ written left op right
      → split_args right ≡ first ∷ others
      → is_task_word s left ≡ false
      → text_eq (lower_ascii op) (bytes "empty") ≡ false
      → text_eq (lower_ascii op) (bytes "notempty") ≡ false
      → after_first op (written left op right) ≡ some (32 ∷ right)
      → resolve s left ≡ some l
      → resolve s (trim_ascii (32 ∷ right)) ≡ some r
      → evaluate s (written left op right) ≡ compare_operands s (lower_ascii op) l r
  unfolding evaluate with_args with_left right_operand
  evaluate-compare left op right l r first others hl ho t a k e n f x y =
      rw (t, split_args-written left op right hl ho, k, x, e, n, a, right_operand, f, y) refl

  -- A condition of a word, an operator and a right part, whose operator in lower case is a word of a
  -- comparison, has the meaning of the comparison at the values of the word and of the right part:
  -- `contains` and its like whether the right value occurs in the left one, both in lower case, the
  -- opposite ones whether it does not; the others compare the values as numbers, and where one of them is
  -- none, `==` and `!=` and their like compare them as texts and the orders are refused. Word and operator
  -- are plain, trimming leaves the whole as it is, the right part has an argument, the word is not one for
  -- tasks, the operator first stands where it was written, and both operands have a value.
  pub evaluate-written :
      (c : Comparison) (left op right l r first : Text) (others : List Text)
      → IsOneOf (lower_ascii op) (words c)
      → IsWord left
      → IsWord op
      → trim_ascii (written left op right) ≡ written left op right
      → split_args right ≡ first ∷ others
      → is_task_word s left ≡ false
      → after_first op (written left op right) ≡ some (32 ∷ right)
      → resolve s left ≡ some l
      → resolve s (trim_ascii (32 ∷ right)) ≡ some r
      → Means s c l r (evaluate s (written left op right))
  evaluate-written c left op right l r first others m hl ho t a k f x y =
      let (e, n, meant) = words-Serve s c (lower_ascii op) m in
      subst (Means s c l r)
        (sym (evaluate-compare left op right l r first others hl ho t a k e n f x y)) (meant l r)
