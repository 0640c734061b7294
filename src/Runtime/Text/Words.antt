-- ===== src/Runtime/Text/Words.antt =====
-- Texts that are equal, and words: texts without a space, which trimming leaves as they are.
use macrohelp.Base.{ℕ, true, false, not, [], ◌∷◌, all, ◌≡◌, ◌↔◌, refl, ap, subst, arith, ◌∙◌}
use macrohelp.Runtime.Text.{Text, text_eq, is_space, trim_ascii, trim_start, trim_end}

trim_end-word : (w : Text) → all (λ c. not (is_space c)) w ≡ true → trim_end w ≡ w
unfolding trim_end
trim_end-word [] h = refl
trim_end-word (c ∷ []) h = ground (arith, h)
trim_end-word (c ∷ d ∷ cs) h = rw (trim_end-word (d ∷ cs) (ground (arith, h))) refl

pub trim_start-word : (c : ℕ) (cs : Text) → is_space c ≡ false → trim_start (c ∷ cs) ≡ c ∷ cs
unfolding trim_start
trim_start-word c cs h = ground (arith, h)

pub trim_ascii-word : (w : Text) → all (λ c. not (is_space c)) w ≡ true → trim_ascii w ≡ w
unfolding trim_ascii trim_start
trim_ascii-word [] h = trim_end-word [] h
trim_ascii-word (c ∷ cs) h =
    ap trim_end (trim_start-word c cs (ground (arith, h))) ∙ trim_end-word (c ∷ cs) h

pub text_eq_sound : (s t : Text) → text_eq s t ≡ true → s ≡ t
text_eq_sound [] [] h = refl
text_eq_sound [] (d ∷ ds) h = absurd (ground (arith, h))
text_eq_sound (c ∷ cs) [] h = absurd (ground (arith, h))
text_eq_sound (c ∷ cs) (d ∷ ds) h = ground (arith, h, text_eq_sound cs ds)

text_eq_refl : (t : Text) → text_eq t t ≡ true
text_eq_refl [] = refl
text_eq_refl (c ∷ cs) = ground (arith, text_eq_refl cs)

pub text_eq_iff : (s t : Text) → (text_eq s t ≡ true) ↔ (s ≡ t)
text_eq_iff s t = (text_eq_sound s t, λ e. subst (λ x. text_eq s x ≡ true) e (text_eq_refl s))
