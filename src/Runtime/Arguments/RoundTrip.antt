-- ===== src/Runtime/Arguments/RoundTrip.antt =====
-- Arguments that are written in quotes, or as plain words, are read back.
use macrohelp.Base.{
  ℕ, ◌==◌, Bool, true, false, ◌||◌, ◌&&◌, not, List, [], ◌∷◌, ◌++◌, all, All, append-nil, ◌≡◌, ◌≢◌,
  refl, sym, ap, ◌∙◌, arith, Bool-cases, inl, inr, if◌then◌else◌,
}
use macrohelp.Runtime.Text.{Text, is_space, trim_ascii}
use macrohelp.Runtime.Text.Words.{trim_ascii-word}
use macrohelp.Runtime.Arguments.{put_argument, is_separator, split_from, split_args}

-- A backslash before each backslash and each quote.
unfoldable pub guarded : Text → Text
guarded [] = []
guarded (c ∷ cs) = if c == b'\\' || c == b'"' then b'\\' ∷ c ∷ guarded cs else c ∷ guarded cs

abbrev pub print_args : List Text → Text
print_args [] = []
print_args (a ∷ more) = b'"' ∷ (guarded a ++ (b'"' ∷ 32 ∷ print_args more))

pub snoc_append : (xs : Text) (c : ℕ) (ys : Text) → (xs ++ (c ∷ [])) ++ ys ≡ xs ++ (c ∷ ys)
snoc_append [] c ys = refl
snoc_append (x ∷ xs) c ys = ap (λ r. x ∷ r) (snoc_append xs c ys)

-- A byte with a backslash before it, in quotes, and one that needs none.
split-escaped :
    (cur : Text) (c : ℕ) (cs : Text)
    → split_from false true cur (b'\\' ∷ c ∷ cs) ≡ split_from false true (cur ++ (c ∷ [])) cs
unfolding split_from
split-escaped cur c cs = refl

split-quoted :
    (cur : Text) (c : ℕ) (cs : Text)
    → (c == b'\\' || c == b'"') ≡ false
    → split_from false true cur (c ∷ cs) ≡ split_from false true (cur ++ (c ∷ [])) cs
unfolding split_from
split-quoted cur c cs e = ground (arith, e)

split-guarded :
    (cur a rest : Text)
    → split_from false true cur (guarded a ++ rest) ≡ split_from false true (cur ++ a) rest
unfolding guarded
split-guarded cur [] rest = ap (λ x. split_from false true x rest) (sym (append-nil cur))
split-guarded cur (c ∷ cs) rest =
    let shift = ap (λ x. split_from false true x rest) (snoc_append cur c cs) in
    let inner = split-guarded (cur ++ (c ∷ [])) cs rest in
    elim (Bool-cases (c == b'\\' || c == b'"')) [
      | inl e ↦ rw (e, guarded) (split-escaped cur c (guarded cs ++ rest) ∙ (inner ∙ shift))
      | inr e ↦ rw (e, guarded) (split-quoted cur c (guarded cs ++ rest) e ∙ (inner ∙ shift))
    ]

-- An argument that is not empty and has no space at its ends.
abbrev pub IsArgument : Text → Type 0
IsArgument a = (a ≢ []) × (trim_ascii a ≡ a)

put_argument-some : (a : Text) (more : List Text) → a ≢ [] → put_argument a more ≡ a ∷ more
put_argument-some [] more h = absurd (h refl)
put_argument-some (c ∷ cs) more h = refl

-- The end of a quoted argument.
split-end :
    (a rest : Text)
    → split_from false true a (b'"' ∷ 32 ∷ rest)
      ≡ put_argument (trim_ascii a) (split_from false false [] rest)
unfolding split_from
split-end a rest = refl

split-start :
    (rest : Text) → split_from false false [] (b'"' ∷ rest) ≡ split_from false true [] rest
unfolding split_from
split-start rest = refl

-- Arguments that are not empty and have no space at their ends, each written in quotes with a
-- backslash before its backslashes and quotes, are split into the same arguments.
pub split_args-print :
    (args : List Text) → All IsArgument args → split_args (print_args args) ≡ args
unfolding split_args split_from trim_ascii
split_args-print [] h = refl
split_args-print (a ∷ more) ((some_text, trimmed), h) =
    split-start (guarded a ++ (b'"' ∷ 32 ∷ print_args more))
    ∙ (split-guarded [] a (b'"' ∷ 32 ∷ print_args more)
        ∙ (split-end a (print_args more)
            ∙ rw trimmed
                (put_argument-some a _ some_text ∙ ap (λ r. a ∷ r) (split_args-print more h))))

-- A byte that stands for itself outside quotes.
abbrev pub is_plain : ℕ → Bool
is_plain c = not (is_separator c) && not (c == b'"')

split-plain :
    (cur : Text) (c : ℕ) (cs : Text)
    → is_plain c ≡ true
    → split_from false false cur (c ∷ cs) ≡ split_from false false (cur ++ (c ∷ [])) cs
unfolding split_from
split-plain cur c cs e = ground (arith, e)

split-space :
    (cur rest : Text)
    → split_from false false cur (32 ∷ rest)
      ≡ put_argument (trim_ascii cur) (split_from false false [] rest)
unfolding split_from
split-space cur rest = refl

plain_words : (w : Text) → all is_plain w ≡ true → all (λ c. not (is_space c)) w ≡ true
plain_words [] h = refl
plain_words (c ∷ cs) h = ground (arith, h, plain_words cs)

split-word :
    (cur w rest : Text)
    → all is_plain w ≡ true
    → split_from false false cur (w ++ rest) ≡ split_from false false (cur ++ w) rest
split-word cur [] rest h = ap (λ x. split_from false false x rest) (sym (append-nil cur))
split-word cur (c ∷ cs) rest h =
    split-plain cur c (cs ++ rest) (ground (arith, h))
    ∙ (split-word (cur ++ (c ∷ [])) cs rest (ground (arith, h))
        ∙ ap (λ x. split_from false false x rest) (snoc_append cur c cs))

-- A word and a space before the rest.
pub split_args-word :
    (w rest : Text)
    → all is_plain w ≡ true
    → w ≢ []
    → split_args (w ++ (32 ∷ rest)) ≡ w ∷ split_args rest
unfolding split_args
split_args-word w rest h e =
    split-word [] w (32 ∷ rest) h
    ∙ (split-space w rest
        ∙ (rw (trim_ascii-word w (plain_words w h))
            (put_argument-some w (split_from false false [] rest) e)))
