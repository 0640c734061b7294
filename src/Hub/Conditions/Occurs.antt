-- ===== src/Hub/Conditions/Occurs.antt =====
-- Where a text stands in another: what `contains` in a condition comes to.
use macrohelp.Base.{
  true, [], ◌∷◌, ◌++◌, drop, length, ◌≡◌, ◌↔◌, refl, ap, ◌∙◌, sym, subst, arith, Bool-cases, inl,
  inr,
}
use macrohelp.Runtime.Text.{Text, starts_with}
use macrohelp.Hub.Conditions.{after_first, contains_text}

abbrev pub Occurs : Text → Text → Type 0
Occurs p t = (front : Text) × (back : Text) × (t ≡ front ++ (p ++ back))

starts_with-append : (p back : Text) → starts_with p (p ++ back) ≡ true
starts_with-append [] back = refl
starts_with-append (c ∷ p) back = ground (arith, starts_with-append p back)

starts_with-drop : (p t : Text) → starts_with p t ≡ true → t ≡ p ++ drop (length p) t
starts_with-drop [] t h = refl
starts_with-drop (c ∷ p) [] h = absurd (ground (arith, h))
starts_with-drop (c ∷ p) (d ∷ t) h =
    let same : c ≡ d = ground (arith, h) in
    let rest : starts_with p t ≡ true = ground (arith, h) in
    ap (λ x. x ∷ t) (sym same) ∙ ap (λ r. c ∷ r) (starts_with-drop p t rest)

contains-Occurs : (p t : Text) → contains_text p t ≡ true → Occurs p t
unfolding contains_text after_first
contains-Occurs p [] h = elim (Bool-cases (starts_with p [])) [
  | inl e ↦ ([], drop (length p) [], starts_with-drop p [] e)
  | inr e ↦ absurd (ground (arith, h, e))
]
contains-Occurs p (c ∷ cs) h = elim (Bool-cases (starts_with p (c ∷ cs))) [
  | inl e ↦ ([], drop (length p) (c ∷ cs), starts_with-drop p (c ∷ cs) e)
  | inr e ↦
      let (front, back, w) = contains-Occurs p cs (rw e at h) in
      (c ∷ front, back, ap (λ r. c ∷ r) w)
]

Occurs-contains : (p front back : Text) → contains_text p (front ++ (p ++ back)) ≡ true
unfolding contains_text after_first
Occurs-contains [] [] [] = refl
Occurs-contains [] [] (b ∷ bs) = refl
Occurs-contains (c ∷ p) [] back = rw (starts_with-append (c ∷ p) back) refl
Occurs-contains p (c ∷ front) back =
    elim (Bool-cases (starts_with p (c ∷ (front ++ (p ++ back))))) [
      | inl e ↦ rw e refl
      | inr e ↦ rw e (Occurs-contains p front back)
    ]

-- A text is found in another exactly when it occurs there.
pub contains_text_lem : (p t : Text) → (contains_text p t ≡ true) ↔ Occurs p t
contains_text_lem p t = (
  contains-Occurs p t,
  λ (front, back, w). subst (λ x. contains_text p x ≡ true) (sym w) (Occurs-contains p front back),
)
