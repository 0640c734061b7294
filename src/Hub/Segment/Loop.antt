-- ===== src/Hub/Segment/Loop.antt =====
-- The rule for the loop of `CompileRegistryDispatchSegment`: what its rounds keep, the segment has at
-- its end, when each round has less left to do.
use macrohelp.Base.{ℕ, zero, suc, ◌<◌, Bool, List, [], ◌∷◌, ◌≡◌, refl, ◌⊎◌, inl, inr, arith}
use macrohelp.Hub.Host.{Host}
use macrohelp.Hub.Rgd.{SourceToken}
use macrohelp.Hub.Segment.{
  Work, Course, onward, compiled, turned_down, thrown_out, fault, out_of_fuel, round, take_off,
  proceed, run_rounds, work_left,
}

pub List-cases {ℓ} :
    {A : Type ℓ} (xs : List A) → (xs ≡ []) ⊎ ((x : A) × (ys : List A) × (xs ≡ x ∷ ys))
List-cases [] = inl refl
List-cases (x ∷ ys) = inr (x, ys, refl)

module _ {G A : Type 0} where
  -- Neither a fault nor a lack of fuel; `P` where the loop goes on, and `Q` where it ends well.
  abbrev pub Settles : (Work G A → Type 0) → (Work G A → Type 0) → Course G A → Type 0
  Settles P Q (onward w) = P w
  Settles P Q (compiled w) = Q w
  Settles P Q (turned_down w message) = Unit
  Settles P Q (thrown_out w message stop) = Unit
  Settles P Q fault = ⊥
  Settles P Q out_of_fuel = ⊥

  -- The same, of a course that may end in any way.
  abbrev pub Keeps : (Work G A → Type 0) → (Work G A → Type 0) → Course G A → Type 0
  Keeps P Q (onward w) = P w
  Keeps P Q (compiled w) = Q w
  Keeps P Q _ = Unit

  pub Settles-Keeps :
      (P Q R S : Work G A → Type 0) (c : Course G A)
      → Settles P Q c
      → Keeps R S c
      → Settles (λ w. P w × R w) (λ w. Q w × S w) c
  Settles-Keeps P Q R S (onward w) p r = (p, r)
  Settles-Keeps P Q R S (compiled w) p r = (p, r)
  Settles-Keeps P Q R S (turned_down w message) p r = tt
  Settles-Keeps P Q R S (thrown_out w message stop) p r = tt
  Settles-Keeps P Q R S fault p r = p
  Settles-Keeps P Q R S out_of_fuel p r = p

  pub Settles-mono :
      (P Q R S : Work G A → Type 0) (c : Course G A)
      → ((w : Work G A) → P w → R w)
      → ((w : Work G A) → Q w → S w)
      → Settles P Q c
      → Settles R S c
  Settles-mono P Q R S (onward w) f g p = f w p
  Settles-mono P Q R S (compiled w) f g p = g w p
  Settles-mono P Q R S (turned_down w message) f g p = tt
  Settles-mono P Q R S (thrown_out w message stop) f g p = tt
  Settles-mono P Q R S fault f g p = p
  Settles-mono P Q R S out_of_fuel f g p = p

  proceed-Settles :
      (P Q : Work G A → Type 0) (k : Work G A → Course G A) (c : Course G A)
      → ((w : Work G A) → P w → Settles (λ _. ⊥) Q (k w))
      → Settles P Q c
      → Settles (λ _. ⊥) Q (proceed k c)
  proceed-Settles P Q k (onward w) f p = f w p
  proceed-Settles P Q k (compiled w) f p = p
  proceed-Settles P Q k (turned_down w message) f p = tt
  proceed-Settles P Q k (thrown_out w message stop) f p = tt
  proceed-Settles P Q k fault f p = p
  proceed-Settles P Q k out_of_fuel f p = p

  module _ (h : Host G A) (split : Bool) (P Q : Work G A → Type 0)
      (turn : (t : SourceToken) (ts : List SourceToken) (w : Work G A)
        → w.cursor.tokens ≡ t ∷ ts
        → P w
        → Settles
            (λ w1. P w1 × (work_left w1.cursor < work_left w.cursor))
            Q
            (round h split t (take_off ts w)))
      (last : (w : Work G A) → w.cursor.tokens ≡ [] → P w → Q w) where
    pub run_rounds-Settles :
        (n : ℕ) (w : Work G A)
        → work_left w.cursor < n
        → P w
        → Settles (λ _. ⊥) Q (run_rounds h split n w)
    unfolding run_rounds
    run_rounds-Settles zero w b p = omega arith
    run_rounds-Settles (suc n) w b p = elim (List-cases w.cursor.tokens) [
      | inl e ↦ rw (e, run_rounds) (last w e p)
      | inr (t, ts, e) ↦
          rw (e, run_rounds)
            (proceed-Settles (λ w1. P w1 × (work_left w1.cursor < work_left w.cursor)) Q
              (run_rounds h split n) (round h split t (take_off ts w))
              (λ w1 (p1, b1). run_rounds-Settles n w1 (omega arith) p1) (turn t ts w e p))
    ]
