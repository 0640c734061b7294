-- ===== src/Hub/Conditions/Meaning.antt =====
-- What the operators with two operands mean, and that `compare_operands` follows it.
use macrohelp.Base.{
  Bool, true, false, not, none, some, String, List, [], ◌∷◌, ◌≡◌, ◌≢◌, ◌↔◌, ◌⊎◌, inl, inr, refl,
  sym, subst, Option-cases,
}
use macrohelp.Runtime.Text.{Text, bytes, text_eq, lower_ascii}
use macrohelp.Runtime.Text.Words.{text_eq_iff}
use macrohelp.Hub.Host.{Reply, answer, rejected}
use macrohelp.Hub.Conditions.{
  Sources, contains_text, numeric, by_numbers, ordered, compare_operands,
}
use macrohelp.Hub.Conditions.Occurs.{Occurs, contains_text_lem}

pub data Comparison : Type 0 where
  contains lacks equal differs greater at_least smaller at_most : Comparison

abbrev pub words : Comparison → List String
words contains = "contains" ∷ "~" ∷ "has" ∷ []
words lacks = "notcontains" ∷ "!contains" ∷ "!~" ∷ "lacks" ∷ []
words equal = "==" ∷ "=" ∷ "eq" ∷ []
words differs = "!=" ∷ "<>" ∷ "ne" ∷ []
words greater = ">" ∷ "gt" ∷ []
words at_least = ">=" ∷ "gte" ∷ []
words smaller = "<" ∷ "lt" ∷ []
words at_most = "<=" ∷ "lte" ∷ []

abbrev pub IsOneOf : Text → List String → Type 0
IsOneOf t [] = ⊥
IsOneOf t (w ∷ ws) = (t ≡ bytes w) ⊎ IsOneOf t ws

-- The reply is that a statement holds, or that it does not.
abbrev pub Decides : Type 0 → Reply Bool → Type 0
Decides P o = (b : Bool) × (o ≡ answer b) × ((b ≡ true) ↔ P)

module _ {N : Type 0} (s : Sources N) where
  -- A test of two numbers, and what else holds where one operand is no number.
  abbrev pub OfNumbers : (N → N → Bool) → Text → Text → Reply Bool → Type 0 → Type 0
  OfNumbers test l r o Else =
      ((n m : N) → s.number l ≡ some n → s.number r ≡ some m → o ≡ answer (test n m))
      × ((s.number l ≡ none) ⊎ (s.number r ≡ none) → Else)

  abbrev pub numbers_wanted : Reply Bool
  numbers_wanted = rejected (bytes "Numeric {if ...} comparison needs numeric operands.")

  abbrev pub Means : Comparison → Text → Text → Reply Bool → Type 0
  Means contains l r o = Decides (Occurs (lower_ascii r) (lower_ascii l)) o
  Means lacks l r o = Decides (¬ Occurs (lower_ascii r) (lower_ascii l)) o
  Means equal l r o = OfNumbers s.near l r o (Decides (l ≡ r) o)
  Means differs l r o = OfNumbers s.apart l r o (Decides (l ≢ r) o)
  Means greater l r o = OfNumbers (λ n m. s.less m n) l r o (o ≡ numbers_wanted)
  Means at_least l r o = OfNumbers (λ n m. s.less_equal m n) l r o (o ≡ numbers_wanted)
  Means smaller l r o = OfNumbers s.less l r o (o ≡ numbers_wanted)
  Means at_most l r o = OfNumbers s.less_equal l r o (o ≡ numbers_wanted)

  numeric-both :
      (l r : Text) (n m : N)
      → s.number l ≡ some n
      → s.number r ≡ some m
      → numeric s l r ≡ some (n, m)
  unfolding numeric
  numeric-both l r n m e f = rw (e, numeric) (rw f refl)

  numeric-none : (l r : Text) → (s.number l ≡ none) ⊎ (s.number r ≡ none) → numeric s l r ≡ none
  unfolding numeric
  numeric-none l r (inl e) = rw (e, numeric) refl
  numeric-none l r (inr e) = elim (Option-cases (s.number l)) [
    | inl f ↦ rw (f, numeric) refl
    | inr (n, f) ↦ rw (f, numeric) (rw e refl)
  ]

  not_iff : (b : Bool) (P : Type 0) → ((b ≡ true) ↔ P) → ((not b ≡ true) ↔ (¬ P))
  not_iff true P (to, from) = (λ e. cc, λ h. absurd (h (to refl)))
  not_iff false P (to, from) = (λ e x. cc (from x), λ h. refl)

  -- An operator is none of the two of one operand, and means its comparison.
  abbrev pub Serves : Comparison → Text → Type 0
  Serves c op =
      (text_eq op (bytes "empty") ≡ false)
      × (text_eq op (bytes "notempty") ≡ false)
      × ((l r : Text) → Means c l r (compare_operands s op l r))

  by_numbers-OfNumbers :
      (test : N → N → Bool) (l r : Text) (same : Bool) (P : Type 0)
      → ((same ≡ true) ↔ P)
      → let o = answer (by_numbers s test (numeric s l r) same) in
        OfNumbers test l r o (Decides P o)
  by_numbers-OfNumbers test l r same P h =
      (λ n m e f. rw (numeric-both l r n m e f) refl, λ e. rw (numeric-none l r e) (same, refl, h))

  ordered-OfNumbers :
      (test : N → N → Bool) (l r : Text)
      → let o = ordered s test (numeric s l r) in OfNumbers test l r o (o ≡ numbers_wanted)
  ordered-OfNumbers test l r =
      (λ n m e f. rw (numeric-both l r n m e f) refl, λ e. rw (numeric-none l r e) refl)

  -- The reply of each comparison.
  reply : Comparison → Text → Text → Reply Bool
  reply contains l r = answer (contains_text (lower_ascii r) (lower_ascii l))
  reply lacks l r = answer (not (contains_text (lower_ascii r) (lower_ascii l)))
  reply equal l r = answer (by_numbers s s.near (numeric s l r) (text_eq l r))
  reply differs l r = answer (by_numbers s s.apart (numeric s l r) (not (text_eq l r)))
  reply greater l r = ordered s (λ n m. s.less m n) (numeric s l r)
  reply at_least l r = ordered s (λ n m. s.less_equal m n) (numeric s l r)
  reply smaller l r = ordered s s.less (numeric s l r)
  reply at_most l r = ordered s s.less_equal (numeric s l r)

  reply-Means : (c : Comparison) (l r : Text) → Means c l r (reply c l r)
  unfolding reply
  reply-Means contains l r = (_, refl, contains_text_lem (lower_ascii r) (lower_ascii l))
  reply-Means lacks l r = (_, refl, not_iff _ _ (contains_text_lem (lower_ascii r) (lower_ascii l)))
  reply-Means equal l r = by_numbers-OfNumbers s.near l r _ (l ≡ r) (text_eq_iff l r)
  reply-Means differs l r =
      by_numbers-OfNumbers s.apart l r _ (l ≢ r) (not_iff _ _ (text_eq_iff l r))
  reply-Means greater l r = ordered-OfNumbers _ l r
  reply-Means at_least l r = ordered-OfNumbers _ l r
  reply-Means smaller l r = ordered-OfNumbers _ l r
  reply-Means at_most l r = ordered-OfNumbers _ l r

  -- What holds of a word of a list, tried one word after the other.
  abbrev Each : (Text → Type 0) → List String → Type 0
  Each P [] = Unit
  Each P (w ∷ ws) = P (bytes w) × Each P ws

  each_of : (P : Text → Type 0) (ws : List String) (t : Text) → Each P ws → IsOneOf t ws → P t
  each_of P [] t h m = absurd m
  each_of P (w ∷ ws) t (h, hs) (inl e) = subst P (sym e) h
  each_of P (w ∷ ws) t (h, hs) (inr m) = each_of P ws t hs m

  -- A word of a comparison asks for two operands, and gives its reply.
  abbrev Gives : Comparison → Text → Type 0
  Gives c op =
      (text_eq op (bytes "empty") ≡ false)
      × (text_eq op (bytes "notempty") ≡ false)
      × ((l r : Text) → compare_operands s op l r ≡ reply c l r)

  words_give : (c : Comparison) → Each (Gives c) (words c)
  unfolding compare_operands reply
  words_give contains =
      ((refl, refl, λ l r. refl), ((refl, refl, λ l r. refl), ((refl, refl, λ l r. refl), tt)))
  words_give lacks = (
    (refl, refl, λ l r. refl),
    ((refl, refl, λ l r. refl), ((refl, refl, λ l r. refl), ((refl, refl, λ l r. refl), tt))),
  )
  words_give equal =
      ((refl, refl, λ l r. refl), ((refl, refl, λ l r. refl), ((refl, refl, λ l r. refl), tt)))
  words_give differs =
      ((refl, refl, λ l r. refl), ((refl, refl, λ l r. refl), ((refl, refl, λ l r. refl), tt)))
  words_give greater = ((refl, refl, λ l r. refl), ((refl, refl, λ l r. refl), tt))
  words_give at_least = ((refl, refl, λ l r. refl), ((refl, refl, λ l r. refl), tt))
  words_give smaller = ((refl, refl, λ l r. refl), ((refl, refl, λ l r. refl), tt))
  words_give at_most = ((refl, refl, λ l r. refl), ((refl, refl, λ l r. refl), tt))

  pub words-Serve : (c : Comparison) (op : Text) → IsOneOf op (words c) → Serves c op
  words-Serve c op m =
      let (a, b, e) = each_of (Gives c) (words c) op (words_give c) m in
      (a, b, λ l r. subst (Means c l r) (sym (e l r)) (reply-Means c l r))
