-- ===== src/Base/Int.antt =====
-- The `int` of the sources: signed integers over the native numbers, and their 32-bit wrap-around.
use Prim.Native.Nat.{ℕ, suc, ◌+◌, ◌-◌, ◌*◌, ◌≤◌, ◌<◌, ◌%◌}
use mathlib.Core.Path.{◌≡◌}
use mathlib.Core.Logic.{◌↔◌}
use mathlib.Core.Bool.{Bool, true}
use native.Mathlib.Omega.{arith}
use macrohelp.Base.Tests.{ltb, leb, ◌==◌, if◌then◌else◌}

-- `negsuc n` is -(n + 1).
pub data ℤ : Type 0 where
  pos : ℕ → ℤ
  negsuc : ℕ → ℤ

abbrev pub pos_part : ℤ → ℕ
pos_part (pos n) = n
pos_part (negsuc n) = 0

abbrev pub neg_part : ℤ → ℕ
neg_part (pos n) = 0
neg_part (negsuc n) = suc n

-- a - b, as an integer.
abbrev pub sub_ℕ : ℕ → ℕ → ℤ
sub_ℕ a b = if leb b a then pos (a - b) else negsuc (b - a - 1)

infixl 65 ◌+ℤ◌ ◌-ℤ◌
infixl 70 ◌*ℤ◌
infix 50 ◌≤ℤ◌ ◌<ℤ◌
unfoldable pub ◌+ℤ◌ : ℤ → ℤ → ℤ
a +ℤ b = sub_ℕ (pos_part a + pos_part b) (neg_part a + neg_part b)

unfoldable pub ◌-ℤ◌ : ℤ → ℤ → ℤ
a -ℤ b = sub_ℕ (pos_part a + neg_part b) (neg_part a + pos_part b)

unfoldable pub ◌*ℤ◌ : ℤ → ℤ → ℤ
a *ℤ b =
    sub_ℕ (pos_part a * pos_part b + neg_part a * neg_part b)
      (pos_part a * neg_part b + neg_part a * pos_part b)

abbrev pub ◌≤ℤ◌ : ℤ → ℤ → Type 0
a ≤ℤ b = pos_part a + neg_part b ≤ pos_part b + neg_part a

abbrev pub ◌<ℤ◌ : ℤ → ℤ → Type 0
a <ℤ b = pos_part a + neg_part b < pos_part b + neg_part a

abbrev pub ltb_ℤ : ℤ → ℤ → Bool
ltb_ℤ a b = ltb (pos_part a + neg_part b) (pos_part b + neg_part a)

abbrev pub eqb_ℤ : ℤ → ℤ → Bool
eqb_ℤ a b = (pos_part a + neg_part b) == (pos_part b + neg_part a)

pub eq_of_parts : (a b : ℤ) → pos_part a + neg_part b ≡ pos_part b + neg_part a → a ≡ b
eq_of_parts a b h = ground arith

pub eqb_ℤ_iff : (a b : ℤ) → (eqb_ℤ a b ≡ true) ↔ (a ≡ b)
eqb_ℤ_iff a b = (λ h. eq_of_parts a b (ground arith), λ h. ground arith)

-- The value that 32 bits of two's complement keep of an integer.
unfoldable pub wrap32 : ℤ → ℤ
wrap32 a =
    let m : ℕ = (pos_part a + 4294967296 - neg_part a % 4294967296) % 4294967296 in
    if ltb m 2147483648 then pos m else negsuc (4294967295 - m)

abbrev pub FitsInt : ℤ → Type 0
FitsInt a = (pos_part a < 2147483648) × (neg_part a ≤ 2147483648)

pub wrap32-FitsInt : (a : ℤ) → FitsInt (wrap32 a)
unfolding wrap32
wrap32-FitsInt a = ground arith

pub wrap32_id : (a : ℤ) → FitsInt a → wrap32 a ≡ a
unfolding wrap32
wrap32_id (pos n) h = ground arith
wrap32_id (negsuc n) h = ground arith

-- Counting up from a positive `int` stays exact below the largest one.
pub wrap32_suc :
    (n : ℤ)
    → pos 0 <ℤ n
    → n <ℤ pos 2147483647
    → (n <ℤ wrap32 (n +ℤ pos 1))
      × (pos 0 <ℤ wrap32 (n +ℤ pos 1))
      × (pos_part (wrap32 (n +ℤ pos 1)) < pos_part n + 2)
unfolding wrap32 ◌+ℤ◌
wrap32_suc (pos n) h k = ground arith
wrap32_suc (negsuc n) h k = ground arith
