-- ===== src/Runtime/Environment/Slots.antt =====
-- The lines of an environment's arrays, read one after the other: each sets its entry.
use macrohelp.Base.{
  ℕ, zero, suc, ◌<◌, ◌==◌, List, [], ◌∷◌, ◌++◌, length, ◌≡◌, refl, ap, sym, subst, ◌∙◌, arith,
  Bool-cases, inl, inr, ==_iff,
}
use macrohelp.Runtime.Text.{Text, bytes, lower_ascii}
use macrohelp.Runtime.Decimal.{print_int}
use macrohelp.Runtime.Environment.{
  System, Environment, set_at, parse_bool, apply_setting, set_zone, set_spot,
}
use macrohelp.Runtime.Environment.Write.{var_key, paste_key, spot_name}

-- A property of each number below a bound.
abbrev pub Each : (ℕ → Type 0) → ℕ → Type 0
Each P zero = Unit
Each P (suc n) = Each P n × P n

pub each : (P : ℕ → Type 0) (n i : ℕ) → Each P n → i < n → P i
each P zero i h l = absurd (omega arith)
each P (suc n) i (h, p) l = elim (Bool-cases (i == n)) [
  | inl e ↦ subst P (sym ((==_iff i n).0 e)) p
  | inr e ↦ each P n i h (ground (arith, e, l))
]

module _ {ℓ} {A : Type ℓ} where
  -- Entries that are set one after the other, from an index on.
  abbrev pub merge : (A → A → A) → ℕ → List A → List A → List A
  merge f i [] old = old
  merge f i (x ∷ xs) old = merge f (suc i) xs (set_at old i (f x))

  abbrev pub zip_over : (A → A → A) → List A → List A → List A
  zip_over f [] old = []
  zip_over f (x ∷ xs) [] = []
  zip_over f (x ∷ xs) (o ∷ old) = f x o ∷ zip_over f xs old

  merge-cons :
      (f : A → A → A) (i : ℕ) (o : A) (xs old : List A)
      → merge f (suc i) xs (o ∷ old) ≡ o ∷ merge f i xs old
  merge-cons f i o [] old = refl
  merge-cons f i o (x ∷ xs) old = merge-cons f (suc i) o xs (set_at old i (f x))

  pub merge-zip_over :
      (f : A → A → A) (xs old : List A)
      → length xs ≡ length old
      → merge f 0 xs old ≡ zip_over f xs old
  merge-zip_over f [] [] h = refl
  merge-zip_over f [] (o ∷ old) h = absurd (omega (arith, h))
  merge-zip_over f (x ∷ xs) [] h = absurd (omega (arith, h))
  merge-zip_over f (x ∷ xs) (o ∷ old) h =
      merge-cons f 0 (f x o) xs old
      ∙ ap (λ r. f x o ∷ r) (merge-zip_over f xs old (omega (arith, h)))

  pub set_at-set_at :
      (xs : List A) (i : ℕ) (f g : A → A) → set_at (set_at xs i f) i g ≡ set_at xs i (λ x. g (f x))
  set_at-set_at [] i f g = refl
  set_at-set_at (x ∷ xs) zero f g = refl
  set_at-set_at (x ∷ xs) (suc i) f g = ap (λ r. x ∷ r) (set_at-set_at xs i f g)

module _ (sys : System) where
  abbrev pub named : Text → Text → Environment → Environment
  named name = apply_setting sys (lower_ascii name)

  pub apply_var :
      (v : Text) (s : Environment) (i : ℕ)
      → i < 4
      → named (bytes "Var" ++ var_key i) v s ≡ record s { vars = set_at s.vars i (λ o. sys.wide v) }
  unfolding apply_setting
  apply_var v s i =
      each
        (λ i.
          named (bytes "Var" ++ var_key i) v s
          ≡ record s { vars = set_at s.vars i (λ o. sys.wide v) })
        4 i ((((tt, refl), refl), refl), refl)

  pub apply_paste :
      (v : Text) (s : Environment) (i : ℕ)
      → i < 4
      → named (bytes "Paste" ++ paste_key i) v s
        ≡ record s { pastes = set_at s.pastes i (λ o. sys.wide v) }
  unfolding apply_setting
  apply_paste v s i =
      each
        (λ i.
          named (bytes "Paste" ++ paste_key i) v s
          ≡ record s { pastes = set_at s.pastes i (λ o. sys.wide v) })
        4 i ((((tt, refl), refl), refl), refl)

  pub apply_zone_set :
      (v : Text) (s : Environment) (i : ℕ)
      → i < 4
      → named (bytes "Zone" ++ (paste_key i ++ bytes "Set")) v s
        ≡ record s { zones = set_at s.zones i (λ o. record o { set = parse_bool v }) }
  unfolding apply_setting
  apply_zone_set v s i =
      each
        (λ i.
          named (bytes "Zone" ++ (paste_key i ++ bytes "Set")) v s
          ≡ record s { zones = set_at s.zones i (λ o. record o { set = parse_bool v }) })
        4 i ((((tt, refl), refl), refl), refl)

  pub apply_zone :
      (v : Text) (s : Environment) (i : ℕ)
      → i < 4
      → named (bytes "Zone" ++ paste_key i) v s ≡ set_zone sys (sys.wide v) i s
  unfolding apply_setting
  apply_zone v s i =
      each (λ i. named (bytes "Zone" ++ paste_key i) v s ≡ set_zone sys (sys.wide v) i s) 4 i
        ((((tt, refl), refl), refl), refl)

  pub apply_spot_set :
      (v : Text) (s : Environment) (i : ℕ)
      → i < 16
      → named (spot_name i ++ bytes "Set") v s
        ≡ record s { spots = set_at s.spots i (λ o. record o { set = parse_bool v }) }
  unfolding apply_setting print_int
  apply_spot_set v s i =
      each
        (λ i.
          named (spot_name i ++ bytes "Set") v s
          ≡ record s { spots = set_at s.spots i (λ o. record o { set = parse_bool v }) })
        16 i
        (
          (
            (
              (
                (
                  (
                    (
                      (((((((((tt, refl), refl), refl), refl), refl), refl), refl), refl), refl),
                      refl,
                    ),
                    refl,
                  ),
                  refl,
                ),
                refl,
              ),
              refl,
            ),
            refl,
          ),
          refl,
        )

  pub apply_spot :
      (v : Text) (s : Environment) (i : ℕ)
      → i < 16
      → named (spot_name i) v s ≡ set_spot sys (sys.wide v) i s
  unfolding apply_setting print_int
  apply_spot v s i =
      each (λ i. named (spot_name i) v s ≡ set_spot sys (sys.wide v) i s) 16 i
        (
          (
            (
              (
                (
                  (
                    (
                      (((((((((tt, refl), refl), refl), refl), refl), refl), refl), refl), refl),
                      refl,
                    ),
                    refl,
                  ),
                  refl,
                ),
                refl,
              ),
              refl,
            ),
            refl,
          ),
          refl,
        )
