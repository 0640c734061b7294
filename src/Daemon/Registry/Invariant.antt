-- ===== src/Daemon/Registry/Invariant.antt =====
-- The registry between two calls: fresh numbers, records under their own numbers, and no timer left
-- behind by a task that has ended.
use mathlib.Core.Option
use macrohelp.Base.{
  ℤ, pos, ◌<ℤ◌, eqb_ℤ, eqb_ℤ_iff, wrap32_suc, String, Option, none, some, Bool, true, false, not,
  [], ◌∷◌, ◌≡◌, refl, ◌∙◌, arith, Bool-cases, Option-cases, inl, inr,
}
use macrohelp.Base.Dict.{
  Dict, int_key, lookup, erase, modify, KeysBelow, KeysBelow-mono, Ascending, lookup-insert,
  lookup-erase, lookup-modify, lookup-adjust, insert-KeysBelow, modify-KeysBelow, adjust-KeysBelow,
  insert-Ascending, modify-Ascending, adjust-Ascending,
}
use macrohelp.Daemon.Types.{TaskState, scheduled, TaskInstance, state_eq}
use macrohelp.Daemon.Registry.{
  Registry, Timer, empty, schedule_task, update_state, with_state, stop_instance, stop_all,
  stop_task, on_delay_timer_expired, erase_active, start_running, is_terminal, is_active, new_task,
}

-- A timer may wait for a task that has not ended.
abbrev pub may_wait : Option TaskInstance → Bool
may_wait none = false
may_wait (some t) = not (is_terminal t.state)

abbrev pub NumberedAs : ℤ → Option TaskInstance → Type 0
NumberedAs n none = Unit
NumberedAs n (some t) = t.task_number ≡ n

pub record Inv (r : Registry) : Type 0 where
  pub fresh : KeysBelow r.next_task_number r.tasks
  pub ascending : Ascending r.tasks
  pub numbered : (n : ℤ) → NumberedAs n (lookup n r.tasks)
  pub timely : (n : ℤ) → may_wait (lookup n r.tasks) ≡ false → lookup n r.timers ≡ none

pub empty-Inv : Inv empty
unfolding lookup
empty-Inv = record { fresh = tt; ascending = tt; numbered = λ n. tt; timely = λ n h. refl }

NumberedAs-map :
    (n : ℤ) (f : TaskInstance → TaskInstance)
    → ((t : TaskInstance) → (f t).task_number ≡ t.task_number)
    → (o : Option TaskInstance) → NumberedAs n o
    → NumberedAs n (Option.map f o)
NumberedAs-map n f keep none h = tt
NumberedAs-map n f keep (some t) h = keep t ∙ h

erase_active-none :
    (n : ℤ) (ts : Dict ℤ TaskInstance) (timers : Dict ℤ Timer)
    → lookup n timers ≡ none
    → lookup n (erase_active ts timers) ≡ none
unfolding erase_active
erase_active-none n [] timers h = h
erase_active-none n ((k, t) ∷ ts) timers h =
    erase_active-none n ts _ (ground (arith, lookup-erase k n timers))

-- The timer of every task that `stopAll` stops is gone.
pub erase_active_lem :
    (n : ℤ) (ts : Dict ℤ TaskInstance) (timers : Dict ℤ Timer) (t : TaskInstance)
    → lookup n ts ≡ some t
    → is_active t.state ≡ true
    → lookup n (erase_active ts timers) ≡ none
unfolding erase_active lookup
erase_active_lem n [] timers t h a = cc
erase_active_lem n ((k, u) ∷ ts) timers t h a = elim (Bool-cases (eqb_ℤ k n)) [
  | inl same ↦ erase_active-none n ts _ (ground (arith, lookup-erase k n timers))
  | inr other ↦ erase_active_lem n ts _ t (rw other at h) a
]

module _ (r : Registry) (v : Inv r) where
  pub schedule_task-Inv :
      (name path : String) (delay loops : ℤ) (description : String) (now : ℤ)
      → pos 0 <ℤ r.next_task_number
      → r.next_task_number <ℤ pos 2147483647
      → Inv (schedule_task name path delay loops description now r).1
  unfolding schedule_task
  schedule_task-Inv name path delay loops description now p q =
      let n = r.next_task_number in
      let ti = new_task n name path delay loops description now in
      record {
        fresh =
            insert-KeysBelow _ n ti r.tasks (wrap32_suc n p q).0
              (KeysBelow-mono n _ r.tasks (wrap32_suc n p q).0 v.fresh);
        ascending = insert-Ascending n ti r.tasks v.ascending;
        numbered = λ k. rw lookup-insert (ground (arith, v.numbered k, eqb_ℤ_iff n k));
        timely = λ k. simp lookup-insert (ground (arith, v.timely k));
      }

  -- A write to one record keeps the invariant, if it keeps the number and leaves no timer behind.
  modify-Inv :
      (n : ℤ) (f : TaskInstance → TaskInstance) (timers : Dict ℤ Timer)
      → ((t : TaskInstance) → (f t).task_number ≡ t.task_number)
      → ((k : ℤ) → may_wait (lookup k (modify n f r.tasks)) ≡ false → lookup k timers ≡ none)
      → Inv (record r { tasks = modify n f r.tasks; timers = timers })
  modify-Inv n f timers keep h = record {
    fresh = modify-KeysBelow r.next_task_number n f r.tasks v.fresh;
    ascending = modify-Ascending n f r.tasks v.ascending;
    numbered = λ k.
        rw lookup-modify
          (ground (arith, v.numbered k, NumberedAs-map k f keep (lookup k r.tasks) (v.numbered k)));
    timely = h;
  }

  pub update_state-Inv :
      (n : ℤ) (new_state : TaskState) (msg : String) (now : ℤ)
      → Inv (update_state n new_state msg now r).0
  unfolding update_state with_state
  update_state-Inv n new_state msg now = elim (Option-cases (lookup n r.tasks)) [
    | inl e ↦ rw (e, update_state) v
    | inr (ti, e) ↦
        rw (e, update_state)
          (modify-Inv n _ _ (λ t. refl)
            λ k.
              rw lookup-modify
                (ground (arith, v.timely k, lookup-erase n k r.timers, eqb_ℤ_iff n k)))
  ]

  pub stop_task-Inv : (n now : ℤ) → Inv (stop_task n now r)
  unfolding stop_task stop_instance
  stop_task-Inv n now = elim (Option-cases (lookup n r.tasks)) [
    | inl e ↦ rw (e, stop_task) v
    | inr (ti, e) ↦ elim (Bool-cases (is_active ti.state)) [
      | inr done ↦ rw (e, stop_task) (rw done v)
      | inl active ↦
          rw (e, stop_task)
            (rw active (
              modify-Inv n (stop_instance now) (erase n r.timers) (λ t. ground arith)
                λ k.
                  rw lookup-modify
                    (ground (arith, v.timely k, lookup-erase n k r.timers, eqb_ℤ_iff n k))))
    ]
  ]

  pub on_delay_timer_expired-Inv : (n now : ℤ) → Inv (on_delay_timer_expired n now r).0
  unfolding on_delay_timer_expired
  on_delay_timer_expired-Inv n now = elim (Option-cases (lookup n r.tasks)) [
    | inl e ↦ rw (e, on_delay_timer_expired) v
    | inr (ti, e) ↦ elim (Bool-cases (state_eq ti.state scheduled)) [
      | inr late ↦ rw (e, on_delay_timer_expired) (rw late v)
      | inl due ↦
          rw (e, on_delay_timer_expired)
            (rw due (
              modify-Inv n (start_running now) (erase n r.timers) (λ t. refl)
                λ k.
                  rw lookup-modify
                    (ground (arith, v.timely k, lookup-erase n k r.timers, eqb_ℤ_iff n k))))
    ]
  ]

  stop_all-timely :
      (now k : ℤ)
      → may_wait (lookup k (stop_all now r).tasks) ≡ false
      → lookup k (stop_all now r).timers ≡ none
  unfolding stop_all stop_instance
  stop_all-timely now k = elim (Option-cases (lookup k r.tasks)) [
    | inl e ↦ λ _. erase_active-none k r.tasks r.timers (v.timely k (rw e))
    | inr (ti, e) ↦ elim (Bool-cases (is_active ti.state)) [
      | inl active ↦ λ _. erase_active_lem k r.tasks r.timers ti e active
      | inr ended ↦
          rw (lookup-adjust, e)
            (λ h. erase_active-none k r.tasks r.timers (v.timely k (rw e (ground arith))))
    ]
  ]

  pub stop_all-Inv : (now : ℤ) → Inv (stop_all now r)
  unfolding stop_all stop_instance
  stop_all-Inv now = record {
    fresh = adjust-KeysBelow r.next_task_number _ r.tasks v.fresh;
    ascending = adjust-Ascending _ r.tasks v.ascending;
    numbered = λ k. rw lookup-adjust (ground (arith, v.numbered k));
    timely = stop_all-timely now;
  }
