-- ===== src/Hub/Segment/Resumption.antt =====
-- Where a segment leaves the cursor, the next one goes on, with less to do.
use macrohelp.Base.{
  suc, ◌+◌, ◌≤◌, ◌<◌, Bool, true, false, List, [], ◌∷◌, ◌≡◌, refl, subst, arith, Bool-cases, inl,
  inr,
}
use macrohelp.Hub.Branches.{branches_active}
use macrohelp.Hub.Host.{Host}
use macrohelp.Hub.Rgd.{SourceToken}
use macrohelp.Hub.Segment.{
  Cursor, Work, round, take_off, work_left, compile_segment, waits, is_wait,
}
use macrohelp.Hub.Segment.Loop.{Settles, Settles-Keeps, Settles-mono, run_rounds-Settles}
use macrohelp.Hub.Segment.Bounds.{IsProper, round_taken-Settles}
use macrohelp.Hub.Segment.Numbering.{
  Numbered, Resumable, IsAtWait, IsDue, one_if, Onward, Halted, round-Keeps,
}

-- A cursor from which a segment may start.
pub record IsReady (c : Cursor) : Type 0 where
  pub proper : IsProper c
  pub counted : c.total + one_if c.leading_wait ≡ c.index + waits c.tokens
  pub at_wait : c.leading_wait ≡ true → IsAtWait c

at_wait_end : (c : Cursor) → c.tokens ≡ [] → IsAtWait c → ⊥
at_wait_end c e = rw e (λ x. x)

at_wait_head :
    {t : SourceToken} {ts : List SourceToken} (c : Cursor)
    → c.tokens ≡ t ∷ ts
    → IsAtWait c
    → (is_wait t.text ≡ true) × (branches_active c.branches ≡ true)
at_wait_head c e = rw e (λ x. x)

pub one_if_le : (b : Bool) → one_if b ≤ 1
one_if_le false = omega arith
one_if_le true = omega arith

module _ {G A : Type 0} (h : Host G A) (c : Cursor) where
  -- In a segment from `c`.
  abbrev IsUnderWay : Work G A → Type 0
  IsUnderWay w =
      IsProper w.cursor
      × Numbered w.leading w.cursor
      × (work_left w.cursor + one_if c.leading_wait ≤ work_left c + one_if w.leading)

  -- After it: a segment that began with a wait has taken it off.
  abbrev pub HasMoved : Work G A → Type 0
  HasMoved w =
      IsProper w.cursor
      × Resumable w.cursor
      × (work_left w.cursor + one_if c.leading_wait ≤ work_left c)

  taken-IsDue :
      {t : SourceToken} {ts : List SourceToken} (w : Work G A)
      → w.cursor.tokens ≡ t ∷ ts
      → Numbered w.leading w.cursor
      → IsDue h t (take_off ts w)
  unfolding take_off
  taken-IsDue w e n = (
    subst (λ x. w.cursor.total + one_if w.leading ≡ w.cursor.index + waits x) e n.counted,
    λ l. at_wait_head w.cursor e (n.at_wait l),
    n.cleared,
  )

  last_HasMoved : (w : Work G A) → w.cursor.tokens ≡ [] → IsUnderWay w → HasMoved w
  unfolding waits
  last_HasMoved w e (p, n, b) = elim (Bool-cases w.leading) [
    | inl l ↦ absurd (at_wait_end w.cursor e (n.at_wait l))
    | inr l ↦ (
      p,
      record { counted = ground (arith, n.counted, l); at_wait = inl (n.cleared, e) },
      ground (arith, b, l),
    )
  ]

  turn_UnderWay :
      (t : SourceToken) (ts : List SourceToken) (w : Work G A)
      → w.cursor.tokens ≡ t ∷ ts
      → IsUnderWay w
      → Settles
          (λ w1. IsUnderWay w1 × (work_left w1.cursor < work_left w.cursor))
          HasMoved
          (round h true t (take_off ts w))
  turn_UnderWay t ts w e (p, n, b) =
      Settles-mono _ _ _ _ (round h true t (take_off ts w))
        (λ w1 ((q, less), m).
          ((q, m, omega (arith, one_if_le w.leading, one_if_le w1.leading)), less))
        (λ w1 ((q, le, off), m). (q, m, ground (arith, le, b, off)))
        (Settles-Keeps _ _ Onward Halted _ (round_taken-Settles h true t ts w e p)
          (round-Keeps h t (take_off ts w) (taken-IsDue w e n)))

  -- From a ready cursor, a segment that splits at waits ends without a fault; where it succeeds, the
  -- cursor is proper, its total is its index and the waits ahead, it stands at the end or at a wait,
  -- and less is left to do if the segment began with a wait.
  pub compile_segment-HasMoved :
      (g : G) → IsReady c → Settles (λ _. ⊥) HasMoved (compile_segment h true c g)
  unfolding compile_segment
  compile_segment-HasMoved g r =
      run_rounds-Settles h true IsUnderWay HasMoved turn_UnderWay last_HasMoved (suc (work_left c))
        _ (omega arith)
        (
          record { nested = r.proper.nested; within = r.proper.within; apart = r.proper.apart },
          record { counted = r.counted; at_wait = r.at_wait; cleared = refl },
          omega arith,
        )
