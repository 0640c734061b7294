-- ===== src/Runtime/Environment/Names.antt =====
-- The names of the lines of an environment hold no space and no `=`.
use macrohelp.Base.{
  ℕ, suc, ◌+◌, ◌≤◌, true, List, [], ◌∷◌, ◌++◌, length, all, All, All-append, ◌≡◌, refl, arith,
}
use macrohelp.Runtime.Text.{Text, bytes}
use macrohelp.Runtime.Decimal.{print_int}
use macrohelp.Runtime.Environment.{System, Environment, Zone, Spot}
use macrohelp.Runtime.Environment.Write.{
  Shown, scalar_lines, environment_lines, var_lines, paste_lines, zone_lines, spot_lines, var_key,
  paste_key, spot_name,
}
use macrohelp.Runtime.Environment.Lines.{is_plain}
use macrohelp.Runtime.Environment.Slots.{each}

-- The arrays have the lengths of the source's.
pub record HasLengths (e : Environment) : Type 0 where
  pub four_vars : length e.vars ≡ 4
  pub four_pastes : length e.pastes ≡ 4
  pub four_zones : length e.zones ≡ 4
  pub sixteen_spots : length e.spots ≡ 16

abbrev pub ArePlain : List (Text × Text) → Type 0
ArePlain = All (λ l. is_plain l.0 ≡ true)

all-ArePlain : (ls : List (Text × Text)) → all (λ l. is_plain l.0) ls ≡ true → ArePlain ls
all-ArePlain [] h = tt
all-ArePlain (l ∷ ls) h = (ground (arith, h), all-ArePlain ls (ground (arith, h)))

module _ (sys : System) where
  var_lines-ArePlain : (i : ℕ) (vs : List Text) → i + length vs ≤ 4 → ArePlain (var_lines sys i vs)
  unfolding var_lines
  var_lines-ArePlain i [] h = tt
  var_lines-ArePlain i (v ∷ vs) h = (
    each (λ i. is_plain (bytes "Var" ++ var_key i) ≡ true) 4 i ((((tt, refl), refl), refl), refl)
        (omega arith),
    var_lines-ArePlain (suc i) vs (omega arith),
  )

  paste_lines-ArePlain :
      (i : ℕ) (vs : List Text) → i + length vs ≤ 4 → ArePlain (paste_lines sys i vs)
  unfolding paste_lines
  paste_lines-ArePlain i [] h = tt
  paste_lines-ArePlain i (v ∷ vs) h = (
    each (λ i. is_plain (bytes "Paste" ++ paste_key i) ≡ true) 4 i
        ((((tt, refl), refl), refl), refl) (omega arith),
    paste_lines-ArePlain (suc i) vs (omega arith),
  )

zone_lines-ArePlain : (i : ℕ) (zs : List Zone) → i + length zs ≤ 4 → ArePlain (zone_lines i zs)
unfolding zone_lines
zone_lines-ArePlain i [] h = tt
zone_lines-ArePlain i (z ∷ zs) h = (
  each (λ i. is_plain (bytes "Zone" ++ (paste_key i ++ bytes "Set")) ≡ true) 4 i
      ((((tt, refl), refl), refl), refl) (omega arith),
  (
    each (λ i. is_plain (bytes "Zone" ++ paste_key i) ≡ true) 4 i ((((tt, refl), refl), refl), refl)
        (omega arith),
    zone_lines-ArePlain (suc i) zs (omega arith),
  ),
)

spot_lines-ArePlain : (i : ℕ) (ps : List Spot) → i + length ps ≤ 16 → ArePlain (spot_lines i ps)
unfolding spot_lines print_int
spot_lines-ArePlain i [] h = tt
spot_lines-ArePlain i (p ∷ ps) h = (
  each (λ i. is_plain (spot_name i ++ bytes "Set") ≡ true) 16 i
      (
        (
          (
            (
              (
                (
                  (
                    (((((((((tt, refl), refl), refl), refl), refl), refl), refl), refl), refl),
                    refl,
                  ),
                  refl,
                ),
                refl,
              ),
              refl,
            ),
            refl,
          ),
          refl,
        ),
        refl,
      )
      (omega arith),
  (
    each (λ i. is_plain (spot_name i) ≡ true) 16 i
        (
          (
            (
              (
                (
                  (
                    (
                      (((((((((tt, refl), refl), refl), refl), refl), refl), refl), refl), refl),
                      refl,
                    ),
                    refl,
                  ),
                  refl,
                ),
                refl,
              ),
              refl,
            ),
            refl,
          ),
          refl,
        )
        (omega arith),
    spot_lines-ArePlain (suc i) ps (omega arith),
  ),
)

pub environment_lines-ArePlain :
    (sys : System) (w : Shown) (e : Environment)
    → HasLengths e
    → ArePlain (environment_lines sys w e)
unfolding environment_lines
environment_lines-ArePlain sys w e h =
    All-append _ (scalar_lines sys w e) _ (all-ArePlain (scalar_lines sys w e) refl) (
      All-append _ (var_lines sys 0 e.vars) _
        (var_lines-ArePlain sys 0 e.vars (omega (arith, h.four_vars)))
        (All-append _ (paste_lines sys 0 e.pastes) _
          (paste_lines-ArePlain sys 0 e.pastes (omega (arith, h.four_pastes)))
          (All-append _ (zone_lines 0 e.zones) _
            (zone_lines-ArePlain 0 e.zones (omega (arith, h.four_zones)))
            (spot_lines-ArePlain 0 e.spots (omega (arith, h.sixteen_spots))))))
