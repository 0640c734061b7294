-- ===== src/Hub/Tokens/RoundTrip.antt =====
-- Tokens written in braces are read back.
use macrohelp.Base.{
  ℕ, zero, suc, ◌==◌, Bool, true, false, List, [], ◌∷◌, ◌++◌, append-nil, All, ◌≡◌, refl, sym, ap,
  ◌∙◌, arith, Bool-cases, inl, inr,
}
use macrohelp.Control.Checked.{done}
use macrohelp.Runtime.Text.{Text, trim_ascii}
use macrohelp.Hub.Tokens.{scan, extract_tokens}

-- Whether a text's braces match, under `d` open ones.
unfoldable pub matched : ℕ → Text → Bool
matched zero [] = true
matched (suc d) [] = false
matched d (c ∷ cs) = elim (c == b'{') [
  | true ↦ matched (suc d) cs
  | false ↦ elim (c == b'}') [
    | true ↦ elim d [ zero ↦ false | suc e ↦ matched e cs ]
    | false ↦ matched d cs
  ]
]

-- A text that may stand between braces: its own match, and no space is at its ends.
abbrev pub IsToken : Text → Type 0
IsToken t = (matched 0 t ≡ true) × (trim_ascii t ≡ t)

-- The tokens on a line each.
abbrev pub print_tokens : List Text → Text
print_tokens [] = []
print_tokens (t ∷ ts) = b'{' ∷ (t ++ (b'}' ∷ 10 ∷ print_tokens ts))

snoc_append : (xs : Text) (c : ℕ) (ys : Text) → (xs ++ (c ∷ [])) ++ ys ≡ xs ++ (c ∷ ys)
snoc_append [] c ys = refl
snoc_append (x ∷ xs) c ys = ap (λ r. x ∷ r) (snoc_append xs c ys)

module _ (d : ℕ) (before : Text) (c : ℕ) (cs : Text) where
  scan-opening :
      (c == b'{') ≡ true → scan (suc d) before (c ∷ cs) ≡ scan (suc (suc d)) (before ++ (c ∷ [])) cs
  unfolding scan
  scan-opening e = rw (e, scan) refl

  scan-closing :
      (c == b'{') ≡ false
      → (c == b'}') ≡ true
      → scan (suc (suc d)) before (c ∷ cs) ≡ scan (suc d) (before ++ (c ∷ [])) cs
  unfolding scan
  scan-closing e f = rw (e, f, scan) refl

  scan-plain :
      (c == b'{') ≡ false
      → (c == b'}') ≡ false
      → scan (suc d) before (c ∷ cs) ≡ scan (suc d) (before ++ (c ∷ [])) cs
  unfolding scan
  scan-plain e f = rw (e, f, scan) refl

-- The text of a token is taken in whole.
scan_inside :
    (d : ℕ) (before t rest : Text)
    → matched d t ≡ true
    → scan (suc d) before (t ++ rest) ≡ scan 1 (before ++ t) rest
unfolding matched
scan_inside zero before [] rest h = ap (λ x. scan 1 x rest) (sym (append-nil before))
scan_inside (suc d) before [] rest h = absurd (ground (arith, h))
scan_inside d before (c ∷ cs) rest h =
    let shift = ap (λ b. scan 1 b rest) (snoc_append before c cs) in
    elim (Bool-cases (c == b'{')) [
      | inl e ↦
          scan-opening d before c (cs ++ rest) e
          ∙ (scan_inside (suc d) (before ++ (c ∷ [])) cs rest (ground (arith, h, e)) ∙ shift)
      | inr e ↦ elim (Bool-cases (c == b'}')) [
        | inr f ↦
            scan-plain d before c (cs ++ rest) e f
            ∙ (scan_inside d (before ++ (c ∷ [])) cs rest (ground (arith, h, e, f)) ∙ shift)
        | inl f ↦
            elim d
                as (λ k.
                  matched k (c ∷ cs) ≡ true
                  → scan (suc k) before (c ∷ (cs ++ rest)) ≡ scan 1 (before ++ (c ∷ cs)) rest) [
                    | zero ↦ λ q. absurd (ground (arith, q, e, f))
                    | suc k ↦ λ q.
                        scan-closing k before c (cs ++ rest) e f
                        ∙ (scan_inside k (before ++ (c ∷ [])) cs rest (ground (arith, q, e, f))
                            ∙ shift)
                  ]
              h
      ]
    ]

-- Tokens whose braces match and which have no space at their ends, each written in braces on a line,
-- are read back as they were.
pub extract-print : (ts : List Text) → All IsToken ts → extract_tokens (print_tokens ts) ≡ done ts
unfolding extract_tokens scan
extract-print [] h = refl
extract-print (t ∷ ts) ((m, trimmed), rest) =
    scan_inside 0 [] t (b'}' ∷ 10 ∷ print_tokens ts) m ∙ rw (trimmed, extract-print ts rest) refl
