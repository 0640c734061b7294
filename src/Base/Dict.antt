-- ===== src/Base/Dict.antt =====
-- `QMap` and `std::map`: an association list in ascending order of its keys, which iteration
-- follows. The keys' tests come as an interface; `int` and text keys fill it.
pub mod Equal
use Prim.Native.Nat.{Ordering}
use Prim.Native.String.{compare}
use mathlib.Core.Option
use text.Mathlib.Text.{◌==◌ as str_eq}
use text.Mathlib.TextEquality.{eq_iff}
use macrohelp.Base.Tests.{if◌then◌else◌}
use macrohelp.Base.Int.{ℤ, ◌<ℤ◌, eqb_ℤ, ltb_ℤ, eqb_ℤ_iff}
use Prim.Native.String.{String}
use mathlib.Core.Path.{◌≡◌, refl}
use mathlib.Core.Logic.{◌↔◌}
use mathlib.Core.Bool.{Bool, true, false}
use mathlib.Core.Option.{Option, none, some}
use mathlib.Core.List.{List, [], ◌∷◌, map}
use native.Mathlib.Omega.{arith}

pub record Key {ℓ} (K : Type ℓ) : Type ℓ where
  pub beq : K → K → Bool
  pub beq_iff : (a b : K) → (beq a b ≡ true) ↔ (a ≡ b)
  pub before : K → K → Bool

instance abbrev pub int_key : Key ℤ
int_key = record { beq = eqb_ℤ; beq_iff = eqb_ℤ_iff; before = ltb_ℤ }

abbrev str_before : String → String → Bool
str_before s t = elim (compare s t) [ Ordering.lt ↦ true | _ ↦ false ]

instance abbrev pub string_key : Key String
string_key = record { beq = str_eq; beq_iff = eq_iff; before = str_before }

abbrev pub Dict {ℓ κ} : Type ℓ → Type κ → Type (ℓ ⊔ κ)
Dict K V = List (K × V)

module _ {ℓ κ} {K : Type ℓ} {V : Type κ} where
  abbrev pub values : Dict K V → List V
  values = map (λ p. p.1)

  abbrev pub keys : Dict K V → List K
  keys = map (λ p. p.0)

module _ {ℓ κ} {K : Type ℓ} {V : Type κ} ⦃e : Key K⦄ where
  unfoldable pub lookup : K → Dict K V → Option V
  lookup k [] = none
  lookup k ((j, v) ∷ m) = if e.beq j k then some v else lookup k m

  unfoldable pub insert : K → V → Dict K V → Dict K V
  insert k v [] = (k, v) ∷ []
  insert k v ((j, w) ∷ m) =
      if e.beq j k
      then (k, v) ∷ m
      else if e.before k j
      then (k, v) ∷ (j, w) ∷ m
      else (j, w) ∷ insert k v m

  unfoldable pub erase : K → Dict K V → Dict K V
  erase k [] = []
  erase k ((j, w) ∷ m) = if e.beq j k then erase k m else (j, w) ∷ erase k m

  -- A write through the pointer that `find` gives; nothing where the key is missing.
  unfoldable pub modify : K → (V → V) → Dict K V → Dict K V
  modify k f [] = []
  modify k f ((j, w) ∷ m) = if e.beq j k then (j, f w) ∷ modify k f m else (j, w) ∷ modify k f m

  -- A loop that writes through its iterator.
  unfoldable pub adjust : (V → V) → Dict K V → Dict K V
  adjust f [] = []
  adjust f ((j, w) ∷ m) = (j, f w) ∷ adjust f m

  pub lookup-insert :
      (k j : K) (v : V) (m : Dict K V)
      → lookup j (insert k v m) ≡ (if e.beq k j then some v else lookup j m)
  unfolding lookup insert
  lookup-insert k j v [] = refl
  lookup-insert k j v ((i, w) ∷ m) =
      ground (arith, e.beq_iff k j, e.beq_iff i k, e.beq_iff i j, lookup-insert k j v m)

  pub lookup-erase :
      (k j : K) (m : Dict K V) → lookup j (erase k m) ≡ (if e.beq k j then none else lookup j m)
  unfolding lookup erase
  lookup-erase k j [] = ground arith
  lookup-erase k j ((i, w) ∷ m) =
      ground (arith, e.beq_iff k j, e.beq_iff i k, e.beq_iff i j, lookup-erase k j m)

  pub lookup-modify :
      (k j : K) (f : V → V) (m : Dict K V)
      → lookup j (modify k f m) ≡ (if e.beq k j then Option.map f (lookup j m) else lookup j m)
  unfolding lookup modify
  lookup-modify k j f [] = ground arith
  lookup-modify k j f ((i, w) ∷ m) =
      ground (arith, e.beq_iff k j, e.beq_iff i k, e.beq_iff i j, lookup-modify k j f m)

  pub lookup-adjust :
      (j : K) (f : V → V) (m : Dict K V) → lookup j (adjust f m) ≡ Option.map f (lookup j m)
  unfolding lookup adjust
  lookup-adjust j f [] = refl
  lookup-adjust j f ((i, w) ∷ m) = ground (arith, lookup-adjust j f m)

pub beq_refl {ℓ} : {K : Type ℓ} (e : Key K) (k : K) → e.beq k k ≡ true
beq_refl e k = (e.beq_iff k k).1 refl

-- The keys of a map of `int`s: all under a bound, and ascending.
module _ {κ} {V : Type κ} where
  abbrev pub KeysBelow : ℤ → Dict ℤ V → Type 0
  KeysBelow n [] = Unit
  KeysBelow n ((k, v) ∷ m) = (k <ℤ n) × KeysBelow n m

  abbrev pub KeysAbove : ℤ → Dict ℤ V → Type 0
  KeysAbove n [] = Unit
  KeysAbove n ((k, v) ∷ m) = (n <ℤ k) × KeysAbove n m

  abbrev pub Ascending : Dict ℤ V → Type 0
  Ascending [] = Unit
  Ascending ((k, v) ∷ m) = KeysAbove k m × Ascending m

  pub KeysBelow-mono : (a b : ℤ) (m : Dict ℤ V) → a <ℤ b → KeysBelow a m → KeysBelow b m
  KeysBelow-mono a b [] h q = tt
  KeysBelow-mono a b ((k, v) ∷ m) h (p, q) = (omega arith, KeysBelow-mono a b m h q)

  pub KeysAbove-mono : (a b : ℤ) (m : Dict ℤ V) → a <ℤ b → KeysAbove b m → KeysAbove a m
  KeysAbove-mono a b [] h q = tt
  KeysAbove-mono a b ((k, v) ∷ m) h (p, q) = (omega arith, KeysAbove-mono a b m h q)

  -- A key that no entry reaches is missing.
  pub lookup_below : (n : ℤ) (m : Dict ℤ V) → KeysBelow n m → lookup n m ≡ none
  unfolding lookup
  lookup_below n [] q = refl
  lookup_below n ((k, v) ∷ m) (p, q) = ground (arith, lookup_below n m q)

  pub insert-KeysBelow :
      (n k : ℤ) (v : V) (m : Dict ℤ V) → k <ℤ n → KeysBelow n m → KeysBelow n (insert k v m)
  unfolding insert
  insert-KeysBelow n k v [] h q = (h, tt)
  insert-KeysBelow n k v ((j, w) ∷ m) h (p, q) = ground (arith, insert-KeysBelow n k v m h q)

  pub modify-KeysBelow :
      (n k : ℤ) (f : V → V) (m : Dict ℤ V) → KeysBelow n m → KeysBelow n (modify k f m)
  unfolding modify
  modify-KeysBelow n k f [] q = tt
  modify-KeysBelow n k f ((j, w) ∷ m) (p, q) = ground (arith, modify-KeysBelow n k f m q)

  pub adjust-KeysBelow :
      (n : ℤ) (f : V → V) (m : Dict ℤ V) → KeysBelow n m → KeysBelow n (adjust f m)
  unfolding adjust
  adjust-KeysBelow n f [] q = tt
  adjust-KeysBelow n f ((j, w) ∷ m) (p, q) = (p, adjust-KeysBelow n f m q)

  insert-KeysAbove :
      (n k : ℤ) (v : V) (m : Dict ℤ V) → n <ℤ k → KeysAbove n m → KeysAbove n (insert k v m)
  unfolding insert
  insert-KeysAbove n k v [] h q = (h, tt)
  insert-KeysAbove n k v ((j, w) ∷ m) h (p, q) = ground (arith, insert-KeysAbove n k v m h q)

  -- Iteration stays in ascending order.
  pub insert-Ascending : (k : ℤ) (v : V) (m : Dict ℤ V) → Ascending m → Ascending (insert k v m)
  unfolding insert
  insert-Ascending k v [] q = (tt, tt)
  insert-Ascending k v ((j, w) ∷ m) (p, q) = ground (
    arith,
    eqb_ℤ_iff j k,
    insert-Ascending k v m q,
    insert-KeysAbove j k v m,
    KeysAbove-mono k j m,
  )

  modify-KeysAbove :
      (n k : ℤ) (f : V → V) (m : Dict ℤ V) → KeysAbove n m → KeysAbove n (modify k f m)
  unfolding modify
  modify-KeysAbove n k f [] q = tt
  modify-KeysAbove n k f ((j, w) ∷ m) (p, q) = ground (arith, modify-KeysAbove n k f m q)

  pub modify-Ascending : (k : ℤ) (f : V → V) (m : Dict ℤ V) → Ascending m → Ascending (modify k f m)
  unfolding modify
  modify-Ascending k f [] q = tt
  modify-Ascending k f ((j, w) ∷ m) (p, q) =
      ground (arith, modify-Ascending k f m q, modify-KeysAbove j k f m p)

  adjust-KeysAbove : (n : ℤ) (f : V → V) (m : Dict ℤ V) → KeysAbove n m → KeysAbove n (adjust f m)
  unfolding adjust
  adjust-KeysAbove n f [] q = tt
  adjust-KeysAbove n f ((j, w) ∷ m) (p, q) = (p, adjust-KeysAbove n f m q)

  pub adjust-Ascending : (f : V → V) (m : Dict ℤ V) → Ascending m → Ascending (adjust f m)
  unfolding adjust
  adjust-Ascending f [] q = tt
  adjust-Ascending f ((j, w) ∷ m) (p, q) = (adjust-KeysAbove j f m p, adjust-Ascending f m q)

  pub lookup_above : (n : ℤ) (m : Dict ℤ V) → KeysAbove n m → lookup n m ≡ none
  unfolding lookup
  lookup_above n [] q = refl
  lookup_above n ((k, v) ∷ m) (p, q) = ground (arith, lookup_above n m q)
