-- ===== src/Hub/Dispatch/Order.antt =====
-- The invariant of a dispatch, kept by every call of it.
use macrohelp.Base.{
  ℕ, ◌+◌, ◌*◌, ◌-◌, ◌≢◌, pos, Bool, true, false, none, some, [], ◌≡◌, ◌⊎◌, refl, arith, inl, inr,
}
use macrohelp.Runtime.Text.{Text}
use macrohelp.Hub.Host.{Host, Scheduled, accepted, refused, broken, Document}
use macrohelp.Hub.Segment.{Cursor, work_left}
use macrohelp.Hub.Segment.Bounds.{IsProper}
use macrohelp.Hub.Segment.Numbering.{Resumable, one_if}
use macrohelp.Hub.Segment.Resumption.{IsReady}
use macrohelp.Hub.Dispatch.{
  running, finished, Machine, finish, cancel, Outcome, settled, faulted, exhausted, broken_off,
  next_index, is_due,
}

-- Between two calls: a dispatch that runs has a task, and a cursor from which it goes on; one that
-- does not has none.
pub record IsOrderly {G : Type 0} (m : Machine G) : Type 0 where
  pub off : m.active ≡ false → m.task ≡ pos 0
  pub on :
      m.active ≡ true
      → (m.task ≢ pos 0) × IsProper m.cursor × Resumable m.cursor × (m.state ≡ running)

-- The fuel that a submission needs.
abbrev pub need : Cursor → ℕ
need c = 2 * work_left c + 2 - one_if c.leading_wait

module _ {G : Type 0} where
  -- All sequences are done.
  abbrev pub IsComplete : Machine G → Type 0
  IsComplete m = (m.state ≡ finished) × (m.cursor.tokens ≡ []) × (m.cursor.index ≡ m.cursor.total)

  -- A submission that ends: in order, and, where it succeeds, with a task or with all done.
  abbrev pub IsSettled : Bool → Machine G → Type 0
  IsSettled verdict m = IsOrderly m × ((verdict ≡ true) → (m.active ≡ true) ⊎ IsComplete m)

  abbrev pub Ends : (Bool → Machine G → Type 0) → Outcome G → Type 0
  Ends P (settled verdict m) = P verdict m
  Ends P faulted = ⊥
  Ends P exhausted = ⊥

  -- What every call promises.
  abbrev pub EndsOrderly : Outcome G → Type 0
  EndsOrderly = Ends (λ verdict m. IsOrderly m)

  pub ends_orderly : (o : Outcome G) → Ends IsSettled o → EndsOrderly o
  ends_orderly (settled verdict m) p = p.0
  ends_orderly faulted p = p
  ends_orderly exhausted p = p

  -- A dispatch that runs and is to submit its next segment.
  pub record IsReadyToSubmit (m : Machine G) : Type 0 where
    pub due : is_due m ≡ true
    pub ready : IsReady m.cursor

  pub resting : (m : Machine G) → m.active ≡ false → m.task ≡ pos 0 → IsOrderly m
  resting m a t = record { off = λ _. t; on = λ e. absurd (ground (arith, a, e)) }

  pub finish-IsSettled : (error : Text) (m : Machine G) → IsSettled false (finish error m)
  unfolding finish
  finish-IsSettled error m = (resting _ refl refl, λ e. absurd (ground (arith, e)))

  pub broken_off-IsSettled :
      (stop : Bool) (message : Text) (m : Machine G)
      → m.active ≡ true
      → IsSettled false (broken_off stop message m)
  unfolding broken_off cancel
  broken_off-IsSettled false message m a = finish-IsSettled message m
  broken_off-IsSettled true message m a =
      rw (a, cancel) (resting _ refl refl, λ e. absurd (ground (arith, e)))

  -- The next segment begins with its wait, where the last one has stopped.
  pub next-IsReady :
      (m : Machine G)
      → IsProper m.cursor
      → Resumable m.cursor
      → m.cursor.tokens ≢ []
      → IsReady (next_index m).cursor
  next-IsReady m p r e = elim r.at_wait [
    | inl (off, none_left) ↦ absurd (e none_left)
    | inr (lead, head) ↦ record {
      proper = record { nested = p.nested; within = p.within; apart = p.apart };
      counted = ground (arith, r.counted, lead);
      at_wait = λ _. head;
    }
  ]

-- The number of a task that was accepted: the controller's reply has it, and it is not 0.
abbrev pub HasNumber : Scheduled → Type 0
HasNumber (accepted (some n)) = n ≢ pos 0
HasNumber (accepted none) = ⊥
HasNumber (refused message) = Unit
HasNumber (broken message) = Unit

module _ {G A : Type 0} (h : Host G A) where
  abbrev pub GivesNumbers : Type 0
  GivesNumbers = (d : Document A) (g : G) → HasNumber (h.schedule d g).1
