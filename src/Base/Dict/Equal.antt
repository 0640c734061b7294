-- ===== src/Base/Dict/Equal.antt =====
-- Maps of `int`s in ascending order are equal if they give the same values.
use mathlib.Core.Path.{◌≡◌, refl, ap, sym, subst, ◌∙◌}
use mathlib.Core.Logic.{inl, inr, ◌⊎◌, ◌≢◌}
use mathlib.Core.Option.{some, some-ne-none, some-injective}
use mathlib.Core.Bool.{true, false}
use mathlib.Core.List.{[], ◌∷◌}
use native.Mathlib.Omega.{arith}
use macrohelp.Base.Tests.{Bool-cases}
use macrohelp.Base.Int.{ℤ, ◌<ℤ◌, ltb_ℤ, eqb_ℤ, eqb_ℤ_iff, eq_of_parts}
use macrohelp.Base.Dict.{
  Dict, int_key, lookup, Ascending, KeysAbove, KeysAbove-mono, lookup_above, beq_refl,
}

ltb_ℤ-cases : (a b : ℤ) → (ltb_ℤ a b ≡ true) ⊎ (ltb_ℤ a b ≡ false)
ltb_ℤ-cases a b = Bool-cases (ltb_ℤ a b)

ℤ-cases : (a b : ℤ) → (a ≡ b) ⊎ ((a <ℤ b) ⊎ (b <ℤ a))
ℤ-cases a b = elim (ltb_ℤ-cases a b) [
  | inl l ↦ inr (inl (ground (arith, l)))
  | inr l ↦ elim (ltb_ℤ-cases b a) [
    | inl g ↦ inr (inr (ground (arith, g)))
    | inr g ↦ inl (eq_of_parts a b (ground (arith, l, g)))
  ]
]

module _ {κ} {V : Type κ} where
  lookup_head : (k : ℤ) (v : V) (m : Dict ℤ V) → lookup k ((k, v) ∷ m) ≡ some v
  unfolding lookup
  lookup_head k v m = rw (beq_refl int_key k) refl

  lookup_tail :
      (k n : ℤ) (v w : V) (m m' : Dict ℤ V)
      → KeysAbove k m
      → KeysAbove k m'
      → lookup n ((k, v) ∷ m) ≡ lookup n ((k, w) ∷ m')
      → lookup n m ≡ lookup n m'
  unfolding lookup
  lookup_tail k n v w m m' a b h = elim (Bool-cases (eqb_ℤ k n)) [
    | inl e ↦
        let same = (eqb_ℤ_iff k n).0 e in
        rw (← same) (lookup_above k m a ∙ sym (lookup_above k m' b))
    | inr e ↦ ground (arith, h, e)
  ]

  -- A key below all of a map's keys has no value there.
  head_apart :
      (k j : ℤ) (v w : V) (m m' : Dict ℤ V)
      → k <ℤ j
      → KeysAbove j m'
      → lookup k ((k, v) ∷ m) ≢ lookup k ((j, w) ∷ m')
  head_apart k j v w m m' lt a h = some-ne-none _ (
      sym (lookup_head k v m) ∙ (h ∙ lookup_above k ((j, w) ∷ m') (lt, KeysAbove-mono k j m' lt a)))

  pub Ascending-ext :
      (m m' : Dict ℤ V) → Ascending m → Ascending m' → ((k : ℤ) → lookup k m ≡ lookup k m') → m ≡ m'
  unfolding lookup
  Ascending-ext [] [] a b h = refl
  Ascending-ext [] ((j, w) ∷ m') a b h = absurd (some-ne-none _ (sym (h j ∙ lookup_head j w m')))
  Ascending-ext ((k, v) ∷ m) [] a b h = absurd (some-ne-none _ (sym (lookup_head k v m) ∙ h k))
  Ascending-ext ((k, v) ∷ m) ((j, w) ∷ m') (a, rest) (b, rest') h = elim (ℤ-cases k j) [
    | inl e ↦
        let h' : (n : ℤ) → lookup n ((k, v) ∷ m) ≡ lookup n ((k, w) ∷ m') =
          λ n. h n ∙ ap (λ i. lookup n ((i, w) ∷ m')) (sym e) in
        let b' : KeysAbove k m' = subst (λ i. KeysAbove i m') (sym e) b in
        let tails = Ascending-ext m m' rest rest' (λ n. lookup_tail k n v w m m' a b' (h' n)) in
        let heads : v ≡ w =
          some-injective _ _ (sym (lookup_head k v m) ∙ (h' k ∙ lookup_head k w m')) in
        cc
    | inr (inl l) ↦ absurd (head_apart k j v w m m' l b (h k))
    | inr (inr g) ↦ absurd (head_apart j k w v m' m g a (sym (h j)))
  ]
