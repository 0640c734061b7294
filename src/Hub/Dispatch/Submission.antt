-- ===== src/Hub/Dispatch/Submission.antt =====
-- A submission ends in order: with a task, with an error, or with all sequences done.
use macrohelp.Base.{
  ℕ, zero, suc, ◌≢◌, ◌<◌, ℤ, pos, eqb_ℤ, eqb_ℤ_iff, Bool, true, false, ◌&&◌, ◌||◌, none, some, [],
  ◌≡◌, ◌⊎◌, refl, subst, arith, Bool-cases, Option-cases, inl, inr,
}
use macrohelp.Control.Checked.{WhenDone, Checked-cases}
use macrohelp.Runtime.Text.{Text}
use macrohelp.Hub.Host.{Host, Scheduled, accepted, refused, broken}
use macrohelp.Hub.Segment.{
  Cursor, Work, Course, onward, compiled, turned_down, thrown_out, fault, out_of_fuel,
  compile_segment, document_of, prepare, work_left, waits,
}
use macrohelp.Hub.Segment.Loop.{Settles, List-cases}
use macrohelp.Hub.Segment.Numbering.{Resumable}
use macrohelp.Hub.Segment.Resumption.{one_if_le, IsReady, HasMoved, compile_segment-HasMoved}
use macrohelp.Hub.Segment.Start.{IsFresh, prepare-IsFresh}
use macrohelp.Hub.Dispatch.{
  Machine, finish, submitted, after_segment, Outcome, next_index, answered, pass_on, treat,
  submit_rounds, submit, start_script, is_due,
}
use macrohelp.Hub.Dispatch.Order.{
  IsOrderly, IsSettled, Ends, EndsOrderly, ends_orderly, IsReadyToSubmit, resting, finish-IsSettled,
  broken_off-IsSettled, next-IsReady, need, HasNumber, GivesNumbers,
}

due_active : {G : Type 0} (m : Machine G) → is_due m ≡ true → m.active ≡ true
due_active m e = ground (arith, e)

not_due : {G : Type 0} (m : Machine G) (t : ℤ) → t ≢ pos 0 → (m.active && eqb_ℤ t (pos 0)) ≡ false
not_due m t e = ground (arith, e, eqb_ℤ_iff t (pos 0))

end_counted : (c : Cursor) → Resumable c → c.tokens ≡ [] → c.index ≡ c.total
unfolding waits
end_counted c r e = ground (arith, r.counted, e)

resumes_leading : (c : Cursor) → Resumable c → c.tokens ≢ [] → c.leading_wait ≡ true
resumes_leading c r e = elim r.at_wait [
  | inl (off, none_left) ↦ absurd (e none_left)
  | inr (lead, head) ↦ lead
]

pub fresh-IsReady : (c : Cursor) → IsFresh c → IsReady c
fresh-IsReady c f = record {
  proper = f.proper;
  counted = ground (arith, f.counted, f.unsplit);
  at_wait = λ e. absurd (ground (arith, e, f.unsplit));
}

module _ {G A : Type 0} (h : Host G A) (numbers : GivesNumbers h) where
  -- What a submission may come back to: its next segment, with less fuel, or a task.
  abbrev CanGoOn : ℕ → Machine G → Type 0
  CanGoOn n m =
      (IsReadyToSubmit m × (need m.cursor < n)) ⊎ (IsSettled true m × (is_due m ≡ false) × (0 < n))

  module _ (n : ℕ) (m : Machine G) (due : is_due m ≡ true) (enough : need m.cursor < suc n)
      (k : Machine G → Outcome G)
      (go : (m1 : Machine G) → CanGoOn n m1 → Ends IsSettled (k m1)) where
    lessens :
        (w : Work G A)
        → w.cursor.tokens ≢ []
        → HasMoved h m.cursor w
        → need (next_index (after_segment w m)).cursor < n
    unfolding work_left
    lessens w e (p, r, b) =
        ground (arith, resumes_leading w.cursor r e, one_if_le m.cursor.leading_wait)

    answered-Ends :
        (w : Work G A) (g : G) (r : Scheduled)
        → HasNumber r
        → HasMoved h m.cursor w
        → Ends IsSettled (answered h r (record (after_segment w m) { env = g }) k)
    unfolding answered submitted
    answered-Ends w g (accepted (some t)) positive (p, r, b) = go _ (
        inr (
          (
            record {
              off = λ e. absurd (ground (arith, due_active m due, e));
              on = λ _. (positive, p, r, refl);
            },
            λ _. inl (due_active m due),
          ),
          not_due m t positive,
          omega (arith, one_if_le m.cursor.leading_wait),
        ))
    answered-Ends w g (accepted none) positive q = absurd positive
    answered-Ends w g (refused message) positive q =
        finish-IsSettled message (record (after_segment w m) { env = g })
    answered-Ends w g (broken message) positive q =
        finish-IsSettled message (record (after_segment w m) { env = g })

    pass_on-Ends : (w : Work G A) → HasMoved h m.cursor w → Ends IsSettled (pass_on h w m k)
    unfolding pass_on finish
    pass_on-Ends w (p, r, b) = elim (Option-cases (document_of true w)) [
      | inr (d, e) ↦ rw (e, pass_on) (answered-Ends w _ _ (numbers d w.env) (p, r, b))
      | inl e ↦ elim (List-cases w.cursor.tokens) [
        | inl f ↦
            rw (e, f, pass_on) (resting _ refl refl, λ _. inr (refl, f, end_counted w.cursor r f))
        | inr (t, ts, f) ↦
            let nonempty : w.cursor.tokens ≢ [] = λ q. absurd (ground (arith, f, q)) in
            rw (e, f, pass_on)
              (go _ (
                inl (
                  record { due = due; ready = next-IsReady (after_segment w m) p r nonempty },
                  lessens w nonempty (p, r, b),
                )))
      ]
    ]

    treat-Ends :
        (c : Course G A) → Settles (λ _. ⊥) (HasMoved h m.cursor) c → Ends IsSettled (treat h c m k)
    unfolding treat
    treat-Ends (compiled w) q = pass_on-Ends w q
    treat-Ends (turned_down w message) q = finish-IsSettled message (after_segment w m)
    treat-Ends (thrown_out w message stop) q =
        broken_off-IsSettled stop message (after_segment w m) (due_active m due)
    treat-Ends (onward w) q = q
    treat-Ends fault q = q
    treat-Ends out_of_fuel q = q

  submit_rounds-Ends : (n : ℕ) (m : Machine G) → CanGoOn n m → Ends IsSettled (submit_rounds h n m)
  unfolding submit_rounds
  submit_rounds-Ends zero m (inl (r, b)) = omega arith
  submit_rounds-Ends zero m (inr (s, d, b)) = omega arith
  submit_rounds-Ends (suc n) m (inr (s, d, b)) = rw (d, submit_rounds) s
  submit_rounds-Ends (suc n) m (inl (r, b)) =
      rw (r.due, submit_rounds)
        (treat-Ends n m r.due b (λ m1. submit_rounds h n m1) (submit_rounds-Ends n)
          (compile_segment h true m.cursor m.env)
          (compile_segment-HasMoved h m.cursor m.env r.ready))

  -- If an accepted task has a number that is not 0: a submission from a dispatch that is due and ready
  -- ends without a fault and in order; where it succeeds, the dispatch runs, or it is finished with no
  -- token left and at its last sequence.
  pub submit-Ends : (m : Machine G) → IsReadyToSubmit m → Ends IsSettled (submit h m)
  unfolding submit
  submit-Ends m r = submit_rounds-Ends _ m (inl (r, omega arith))

  pub start_script-Ends :
      (script : Text) (reading : Bool) (m : Machine G)
      → IsOrderly m
      → EndsOrderly (start_script h script reading m)
  unfolding start_script
  start_script-Ends script reading m o = elim (Bool-cases (m.active || reading)) [
    | inl e ↦ rw (e, start_script) o
    | inr e ↦ elim (Checked-cases (prepare script)) [
      | inr (status, message, f) ↦ rw (e, f, start_script) o
      | inl (c, f) ↦
          rw (e, f, start_script)
            (ends_orderly _ (
              submit-Ends _ (record {
                due = refl;
                ready = fresh-IsReady c (subst (WhenDone IsFresh) f (prepare-IsFresh script));
              })))
    ]
  ]
