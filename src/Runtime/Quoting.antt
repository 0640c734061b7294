-- ===== src/Runtime/Quoting.antt =====
-- `RegistryRgdArgument` of runtime/source/src/registry_rgd.inc, `QuoteProcessArg` and
-- `QuotePowerShellLiteral` of runtime/source/src/main.cpp, and readers of what they write.
use macrohelp.Base.{
  ℕ, zero, suc, ◌+◌, ◌==◌, Bool, true, false, ◌||◌, Option, none, some, [], ◌∷◌, ◌++◌, any,
  if◌then◌else◌, ◌≡◌, refl, arith, Bool-cases, inl, inr, ap, sym, drop, ◌∙◌, append_assoc,
  append-nil,
}
use macrohelp.Runtime.Text.{Text, is_space}

abbrev pub slashes : ℕ → Text
slashes zero = []
slashes (suc n) = b'\\' ∷ slashes n

-- Twice the backslashes.
abbrev pub double : ℕ → Text
double zero = []
double (suc n) = b'\\' ∷ b'\\' ∷ double n

-- The loop and its end, after `n` backslashes that are not written yet.
unfoldable pub quote_from : ℕ → Text → Text
quote_from n [] = double n ++ (b'"' ∷ [])
quote_from n (c ∷ cs) = elim (c == b'\\') [
  | true ↦ quote_from (suc n) cs
  | false ↦ elim (c == b'"') [
    | true ↦ double n ++ (b'\\' ∷ b'"' ∷ quote_from zero cs)
    | false ↦ slashes n ++ (c ∷ quote_from zero cs)
  ]
]

unfoldable pub rgd_argument : Text → Text
unfolding quote_from
rgd_argument v = b'"' ∷ quote_from 0 v

-- `iswspace` is a parameter.
unfoldable pub quote_process_arg : (ℕ → Bool) → Text → Text
unfolding quote_from
quote_process_arg wide_space [] = b'"' ∷ b'"' ∷ []
quote_process_arg wide_space (c ∷ cs) =
    if any (λ d. wide_space d || d == b'"') (c ∷ cs) then b'"' ∷ quote_from 0 (c ∷ cs) else c ∷ cs

-- The quoted argument as the rules of a command line read it: before a quote, two backslashes are one,
-- and one more backslash makes the quote a part of the argument; other backslashes are themselves.
-- The number counts the backslashes just before; the result has what follows the closing quote.
abbrev pub put_all : Text → Option (Text × Text) → Option (Text × Text)
put_all front none = none
put_all front (some (v, rest)) = some (front ++ v, rest)

-- Half of the backslashes, and whether one is left over.
abbrev pub halves : ℕ → ℕ × Bool
halves zero = (zero, false)
halves (suc zero) = (zero, true)
halves (suc (suc n)) = (suc (halves n).0, (halves n).1)

unfoldable pub read_quoted : ℕ → Text → Option (Text × Text)
read_quoted n [] = none
read_quoted n (c ∷ cs) = elim (c == b'\\') [
  | true ↦ read_quoted (suc n) cs
  | false ↦ elim (c == b'"') [
    | true ↦ elim (halves n).1 [
      | true ↦ put_all (slashes (halves n).0 ++ (b'"' ∷ [])) (read_quoted zero cs)
      | false ↦ some (slashes (halves n).0, cs)
    ]
    | false ↦ put_all (slashes n ++ (c ∷ [])) (read_quoted zero cs)
  ]
]

read-slashes : (n k : ℕ) (xs : Text) → read_quoted k (slashes n ++ xs) ≡ read_quoted (k + n) xs
unfolding read_quoted
read-slashes zero k xs = ap (λ j. read_quoted j xs) (omega arith)
read-slashes (suc n) k xs = read-slashes n (suc k) xs ∙ ap (λ j. read_quoted j xs) (omega arith)

read-double : (n k : ℕ) (xs : Text) → read_quoted k (double n ++ xs) ≡ read_quoted (k + (n + n)) xs
unfolding read_quoted
read-double zero k xs = ap (λ j. read_quoted j xs) (omega arith)
read-double (suc n) k xs = read-double n (suc (suc k)) xs ∙ ap (λ j. read_quoted j xs) (omega arith)

halves_even : (n k : ℕ) → k ≡ n + n → halves k ≡ (n, false)
halves_even zero zero e = refl
halves_even zero (suc k) e = absurd (omega arith)
halves_even (suc n) zero e = absurd (omega arith)
halves_even (suc n) (suc zero) e = absurd (omega arith)
halves_even (suc n) (suc (suc k)) e = ap (λ h. (suc h.0, h.1)) (halves_even n k (omega arith))

halves_odd : (n k : ℕ) → k ≡ suc (n + n) → halves k ≡ (n, true)
halves_odd zero zero e = absurd (omega arith)
halves_odd zero (suc zero) e = refl
halves_odd zero (suc (suc k)) e = absurd (omega arith)
halves_odd (suc n) zero e = absurd (omega arith)
halves_odd (suc n) (suc zero) e = absurd (omega arith)
halves_odd (suc n) (suc (suc k)) e = ap (λ h. (suc h.0, h.1)) (halves_odd n k (omega arith))

slashes_shift : (n : ℕ) (xs : Text) → slashes (suc n) ++ xs ≡ slashes n ++ (b'\\' ∷ xs)
slashes_shift zero xs = refl
slashes_shift (suc n) xs = ap (λ r. b'\\' ∷ r) (slashes_shift n xs)

-- The end of the argument.
read_end : (n : ℕ) (rest : Text) → read_quoted (0 + (n + n)) (b'"' ∷ rest) ≡ some (slashes n, rest)
unfolding read_quoted
read_end n rest =
    let e = halves_even n (0 + (n + n)) (omega arith) in
    rw (e, read_quoted) (ap (λ h. some (slashes h.0, rest)) e)

-- A quote in the argument.
read_inner :
    (n : ℕ) (xs : Text)
    → read_quoted (0 + (n + n)) (b'\\' ∷ b'"' ∷ xs)
      ≡ put_all (slashes n ++ (b'"' ∷ [])) (read_quoted 0 xs)
unfolding read_quoted
read_inner n xs =
    let e = halves_odd n (suc (0 + (n + n))) (omega arith) in
    rw (e, read_quoted) (ap (λ h. put_all (slashes h.0 ++ (b'"' ∷ [])) (read_quoted 0 xs)) e)

read_other :
    (n c : ℕ) (xs : Text)
    → (c == b'\\') ≡ false
    → (c == b'"') ≡ false
    → read_quoted (0 + n) (c ∷ xs) ≡ put_all (slashes n ++ (c ∷ [])) (read_quoted 0 xs)
unfolding read_quoted
read_other n c xs e f =
    rw (e, f, read_quoted)
      (ap (λ k. put_all (slashes k ++ (c ∷ [])) (read_quoted 0 xs)) (omega arith))

read-quote_from :
    (n : ℕ) (v rest : Text) → read_quoted 0 (quote_from n v ++ rest) ≡ some (slashes n ++ v, rest)
unfolding quote_from
read-quote_from n [] rest =
    ap (read_quoted 0) (append_assoc (double n) (b'"' ∷ []) rest)
    ∙ (read-double n 0 (b'"' ∷ rest)
        ∙ (read_end n rest ∙ ap (λ x. some (x, rest)) (sym (append-nil (slashes n)))))
read-quote_from n (c ∷ cs) rest = elim (Bool-cases (c == b'\\')) [
  | inl e ↦
      rw (e, quote_from)
        (read-quote_from (suc n) cs rest
          ∙ ap (λ x. some (x, rest))
              (slashes_shift n cs ∙ ap (λ d. slashes n ++ (d ∷ cs)) (ground (arith, e))))
  | inr e ↦ elim (Bool-cases (c == b'"')) [
    | inl f ↦
        let q = quote_from zero cs in
        rw (e, f, quote_from)
          (ap (read_quoted 0) (append_assoc (double n) (b'\\' ∷ b'"' ∷ q) rest)
            ∙ (read-double n 0 (b'\\' ∷ b'"' ∷ (q ++ rest))
                ∙ (read_inner n (q ++ rest)
                    ∙ (ap (put_all (slashes n ++ (b'"' ∷ []))) (read-quote_from zero cs rest)
                        ∙ ap (λ x. some (x, rest))
                            (append_assoc (slashes n) (b'"' ∷ []) cs
                              ∙ ap (λ d. slashes n ++ (d ∷ cs)) (ground (arith, f)))))))
    | inr f ↦
        let q = quote_from zero cs in
        rw (e, f, quote_from)
          (ap (read_quoted 0) (append_assoc (slashes n) (c ∷ q) rest)
            ∙ (read-slashes n 0 (c ∷ (q ++ rest))
                ∙ (read_other n c (q ++ rest) e f
                    ∙ (ap (put_all (slashes n ++ (c ∷ []))) (read-quote_from zero cs rest)
                        ∙ ap (λ x. some (x, rest)) (append_assoc (slashes n) (c ∷ []) cs)))))
  ]
]

-- What stands between the outer quotes of an argument is read as the argument, up to its closing
-- quote and no further.
pub read-rgd_argument :
    (v rest : Text) → read_quoted 0 (drop 1 (rgd_argument v) ++ rest) ≡ some (v, rest)
unfolding rgd_argument
read-rgd_argument v rest = read-quote_from 0 v rest

-- An argument without quotes, up to a space.
unfoldable pub read_bare : Text → Option (Text × Text)
read_bare [] = some ([], [])
read_bare (c ∷ cs) =
    if is_space c
    then some ([], c ∷ cs)
    else if c == b'"'
    then none
    else put_all (c ∷ []) (read_bare cs)

unfoldable pub read_argument : Text → Option (Text × Text)
unfolding read_quoted read_bare
read_argument [] = some ([], [])
read_argument (c ∷ cs) = elim (c == b'"') [ true ↦ read_quoted 0 cs | false ↦ read_bare (c ∷ cs) ]

-- `iswspace` holds of the spaces of ASCII at least.
module _ (wide_space : ℕ → Bool) (spaces : (c : ℕ) → is_space c ≡ true → wide_space c ≡ true) where
  abbrev needs_quote : ℕ → Bool
  needs_quote d = wide_space d || d == b'"'

  read_bare-plain :
      (v rest : Text)
      → any needs_quote v ≡ false
      → read_bare (v ++ (32 ∷ rest)) ≡ some (v, 32 ∷ rest)
  unfolding read_bare
  read_bare-plain [] rest h = refl
  read_bare-plain (c ∷ cs) rest h = ground (arith, h, spaces c, read_bare-plain cs rest)

  not_quote : (c : ℕ) (cs : Text) → any needs_quote (c ∷ cs) ≡ false → (c == b'"') ≡ false
  not_quote c cs e = ground (arith, e)

  -- If iswspace holds of the spaces of ASCII: every argument, the empty one included, followed by a space
  -- and any text, is read back as it was by the rules of a command line, up to that space.
  pub read_argument-quote_process_arg :
      (v rest : Text)
      → read_argument (quote_process_arg wide_space v ++ (32 ∷ rest)) ≡ some (v, 32 ∷ rest)
  unfolding read_argument quote_process_arg read_quoted
  read_argument-quote_process_arg [] rest = refl
  read_argument-quote_process_arg (c ∷ cs) rest = elim (Bool-cases (any needs_quote (c ∷ cs))) [
    | inl e ↦ rw (e, quote_process_arg) (read-quote_from 0 (c ∷ cs) (32 ∷ rest))
    | inr e ↦
        rw (e, quote_process_arg)
          (rw (not_quote c cs e, read_argument) (read_bare-plain (c ∷ cs) rest e))
  ]

-- `QuotePowerShellLiteral`.
unfoldable pub quotes_doubled : Text → Text
quotes_doubled [] = b'\'' ∷ []
quotes_doubled (c ∷ cs) =
    if c == b'\'' then b'\'' ∷ b'\'' ∷ quotes_doubled cs else c ∷ quotes_doubled cs

unfoldable pub powershell_literal : Text → Text
unfolding quotes_doubled
powershell_literal v = b'\'' ∷ quotes_doubled v

-- A literal from after its opening quote: two quotes are one, and a single one closes it. The flag
-- says that a quote came before.
unfoldable pub read_literal : Bool → Text → Option (Text × Text)
read_literal false [] = none
read_literal true [] = some ([], [])
read_literal false (c ∷ cs) = elim (c == b'\'') [
  | true ↦ read_literal true cs
  | false ↦ put_all (c ∷ []) (read_literal false cs)
]
read_literal true (c ∷ cs) = elim (c == b'\'') [
  | true ↦ put_all (c ∷ []) (read_literal false cs)
  | false ↦ some ([], c ∷ cs)
]

abbrev pub begins_with_quote : Text → Bool
begins_with_quote [] = false
begins_with_quote (c ∷ cs) = c == b'\''

read-quotes_doubled :
    (v rest : Text)
    → begins_with_quote rest ≡ false
    → read_literal false (quotes_doubled v ++ rest) ≡ some (v, rest)
unfolding read_literal quotes_doubled
read-quotes_doubled [] [] h = refl
read-quotes_doubled [] (c ∷ cs) h = ground (arith, h)
read-quotes_doubled (c ∷ cs) rest h = ground (arith, read-quotes_doubled cs rest h)

-- A value in a PowerShell literal stays a value: the literal ends where its quotes do, unless a quote
-- follows.
pub read-powershell_literal :
    (v rest : Text)
    → begins_with_quote rest ≡ false
    → read_literal false (drop 1 (powershell_literal v) ++ rest) ≡ some (v, rest)
unfolding powershell_literal
read-powershell_literal v rest h = read-quotes_doubled v rest h
