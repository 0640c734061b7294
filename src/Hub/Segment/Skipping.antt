-- ===== src/Hub/Segment/Skipping.antt =====
-- A branch that is not taken has no effect.
use macrohelp.Base.{ltb, Bool, false, length, ◌≡◌, refl, Bool-cases, inl, inr}
use macrohelp.Hub.Branches.{kind_of, branches_active}
use macrohelp.Hub.Host.{Host}
use macrohelp.Hub.Rgd.{SourceToken}
use macrohelp.Hub.Segment.{Work, round, open_branch, do_plain, is_wait}
use macrohelp.Hub.Segment.Loop.{Keeps, List-cases}
use macrohelp.Hub.Segment.Bounds.{Kind-cases}

-- Nothing outside the cursor's place is touched.
abbrev pub IsUntouched : {G A : Type 0} → Work G A → Work G A → Type 0
IsUntouched w w1 =
    (w1.env ≡ w.env)
    × (w1.actions ≡ w.actions)
    × (w1.cursor.tokens ≡ w.cursor.tokens)
    × (w1.cursor.expanded_bytes ≡ w.cursor.expanded_bytes)
    × (w1.cursor.focus_click ≡ w.cursor.focus_click)

module _ {G A : Type 0} (h : Host G A) (split : Bool) where
  -- Where the branches are not active, the round of any token leaves the other state, the actions, the
  -- tokens ahead, the expanded bytes and the focus-click flag as they are, and ends no segment.
  pub round-skipped :
      (t : SourceToken) (w : Work G A)
      → branches_active w.cursor.branches ≡ false
      → Keeps (IsUntouched w) (λ w1. ⊥) (round h split t w)
  unfolding round open_branch do_plain
  round-skipped t w a = elim (Kind-cases (kind_of t.text)) [
    | inl e ↦ elim (Bool-cases (ltb (length w.cursor.branches) 16)) [
      | inl f ↦ rw (e, f, a, round) (refl, refl, refl, refl, refl)
      | inr f ↦ rw (e, f, round) tt
    ]
    | inr (inl e) ↦ elim (List-cases w.cursor.branches) [
      | inl f ↦ rw (e, f, round) tt
      | inr (b, bs, f) ↦ rw (e, f, round) (refl, refl, refl, refl, refl)
    ]
    | inr (inr (inl e)) ↦ elim (List-cases w.cursor.branches) [
      | inl f ↦ rw (e, f, round) tt
      | inr (b, bs, f) ↦ rw (e, f, round) (refl, refl, refl, refl, refl)
    ]
    | inr (inr (inr e)) ↦ elim (Bool-cases (is_wait t.text)) [
      | inl f ↦ rw (e, a, f, round) (refl, refl, refl, refl, refl)
      | inr f ↦ rw (e, a, f, round) (refl, refl, refl, refl, refl)
    ]
  ]
