-- ===== src/Hub/Tokens/Size.antt =====
-- A script has no more tokens than bytes.
use macrohelp.Base.{
  ℕ, zero, suc, ◌≤◌, ◌==◌, List, [], ◌∷◌, ◌++◌, length, arith, Bool-cases, inl, inr,
}
use macrohelp.Control.Checked.{Checked, done, thrown}
use macrohelp.Runtime.Text.{Text, is_space, trim_ascii}
use macrohelp.Hub.Tokens.{scan, token_first, extract_tokens}

abbrev pub AtMost {ℓ} : {A : Type ℓ} → ℕ → Checked (List A) → Type 0
AtMost n (done ts) = length ts ≤ n
AtMost n (thrown status message) = Unit

AtMost-mono : (n : ℕ) (x : Checked (List Text)) → AtMost n x → AtMost (suc n) x
AtMost-mono n (done ts) p = omega arith
AtMost-mono n (thrown status message) p = tt

token_first-AtMost :
    (t : Text) (n : ℕ) (x : Checked (List Text)) → AtMost n x → AtMost (suc n) (token_first t x)
token_first-AtMost t n (done ts) p = omega arith
token_first-AtMost t n (thrown status message) p = tt

scan-AtMost : (d : ℕ) (token cs : Text) → AtMost (length cs) (scan d token cs)
unfolding scan
scan-AtMost zero token [] = omega arith
scan-AtMost (suc d) token [] = tt
scan-AtMost zero token (c ∷ cs) = elim (Bool-cases (c == b'{')) [
  | inl e ↦ rw (e, scan) (AtMost-mono _ _ (scan-AtMost 1 [] cs))
  | inr e ↦ elim (Bool-cases (c == b'}')) [
    | inl f ↦ rw (e, f, scan) tt
    | inr f ↦ elim (Bool-cases (is_space c)) [
      | inl s ↦ rw (e, f, s, scan) (AtMost-mono _ _ (scan-AtMost zero token cs))
      | inr s ↦ rw (e, f, s, scan) tt
    ]
  ]
]
scan-AtMost (suc d) token (c ∷ cs) = elim (Bool-cases (c == b'{')) [
  | inl e ↦ rw (e, scan) (AtMost-mono _ _ (scan-AtMost (suc (suc d)) (token ++ (c ∷ [])) cs))
  | inr e ↦ elim (Bool-cases (c == b'}')) [
    | inl f ↦ elim d as (λ k. AtMost (suc (length cs)) (scan (suc k) token (c ∷ cs))) [
      | zero ↦ rw (e, f, scan) (token_first-AtMost (trim_ascii token) _ _ (scan-AtMost zero [] cs))
      | suc k ↦ rw (e, f, scan) (AtMost-mono _ _ (scan-AtMost (suc k) (token ++ (c ∷ [])) cs))
    ]
    | inr f ↦ rw (e, f, scan) (AtMost-mono _ _ (scan-AtMost (suc d) (token ++ (c ∷ [])) cs))
  ]
]

pub extract_tokens-AtMost : (script : Text) → AtMost (length script) (extract_tokens script)
unfolding extract_tokens
extract_tokens-AtMost script = scan-AtMost 0 [] script
