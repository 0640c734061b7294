-- ===== src/Daemon/Registry/Lifecycle.antt =====
-- What the calls on one task do to it, to its timer and to the other tasks.
use mathlib.Core.Option
use macrohelp.Base.{
  ℤ, pos, negsuc, neg_part, pos_part, ◌*ℤ◌, wrap32_id, eqb_ℤ, eqb_ℤ_iff, ◌≤◌, String, Option, none,
  some, Bool, true, false, [], ◌∷◌, if◌then◌else◌, ◌≡◌, refl, arith, Option-cases, inl, inr,
}
use macrohelp.Base.Dict.{
  Dict, int_key, lookup, lookup-insert, lookup-erase, lookup-modify, lookup-adjust, lookup_below,
  beq_refl, adjust, values,
}
use macrohelp.Daemon.Types.{TaskState, idle, scheduled, running, TaskInstance, state_eq}
use macrohelp.Daemon.Registry.{
  Registry, Timer, execute_requested, schedule_task, interval_of, get_task, update_state,
  with_state, state_signals, stop_instance, stop_all, stop_task, on_delay_timer_expired,
  is_terminal, is_active, running_count, count_running, start_running,
}
use macrohelp.Daemon.Registry.Invariant.{Inv, stop_all-Inv}

pub timer_of : ℤ → Registry → Option Timer
timer_of n r = lookup n r.timers

-- A new task gets a number that no record has; it is stored as scheduled with a timer, and every
-- other record stays as it was.
pub get_task-schedule_task :
    (r : Registry) (name path : String) (delay loops : ℤ) (description : String) (now k : ℤ)
    → Inv r
    → let (ti, q) = schedule_task name path delay loops description now r in
      (get_task ti.task_number r ≡ none)
      × (get_task k q ≡ (if eqb_ℤ ti.task_number k then some ti else get_task k r))
      × (timer_of ti.task_number q
          ≡ some (record { interval = interval_of delay; number = ti.task_number }))
      × (ti.state ≡ scheduled)
unfolding schedule_task get_task timer_of
get_task-schedule_task r name path delay loops description now k v = (
  lookup_below r.next_task_number r.tasks v.fresh,
  lookup-insert r.next_task_number k _ r.tasks,
  rw lookup-insert (rw (beq_refl int_key r.next_task_number)),
  refl,
)

-- The timer's interval is the delay in milliseconds, for every delay of at most 2147483 seconds.
pub interval_of_exact :
    (delay : ℤ)
    → pos_part delay ≤ 2147483
    → neg_part delay ≤ 2147483
    → interval_of delay ≡ delay *ℤ pos 1000
unfolding interval_of ◌*ℤ◌
interval_of_exact (pos n) h k = wrap32_id _ (ground arith)
interval_of_exact (negsuc n) h k = wrap32_id _ (ground arith)

-- The timer of a scheduled task starts it: the record becomes running, the timer goes and one
-- request to execute it goes out.
pub on_delay_timer_expired_due :
    (r : Registry) (n now : ℤ) (ti : TaskInstance)
    → get_task n r ≡ some ti
    → ti.state ≡ scheduled
    → let (q, signals) = on_delay_timer_expired n now r in
      (get_task n q ≡ some (record ti { state = running; started_at = some now }))
      × (timer_of n q ≡ none)
      × (signals ≡ execute_requested n ti.task_path ti.loop_times ∷ [])
unfolding on_delay_timer_expired get_task timer_of
on_delay_timer_expired_due r n now ti e due = ground (
  arith,
  lookup-modify n n (start_running now) r.tasks,
  lookup-erase n n r.timers,
  beq_refl int_key n,
)

-- A timer that fires for a record in any other state, or for none, changes nothing.
pub on_delay_timer_expired_late :
    (r : Registry) (n now : ℤ)
    → ((ti : TaskInstance) → get_task n r ≡ some ti → state_eq ti.state scheduled ≡ false)
    → on_delay_timer_expired n now r ≡ (r, [])
unfolding on_delay_timer_expired get_task
on_delay_timer_expired_late r n now late = elim (Option-cases (lookup n r.tasks)) [
  | inl e ↦ rw (e, on_delay_timer_expired)
  | inr (ti, e) ↦ rw (e, on_delay_timer_expired) (rw (late ti e))
]

-- A timer that fires after the task was stopped changes nothing and emits no signal.
pub expired_after_stop :
    (r : Registry) (n now later : ℤ)
    → on_delay_timer_expired n later (stop_task n now r) ≡ (stop_task n now r, [])
expired_after_stop r n now later = on_delay_timer_expired_late (stop_task n now r) n later λ ti e.
    unfold get_task stop_task stop_instance in
    ground (arith, lookup-modify n n (stop_instance now) r.tasks, beq_refl int_key n)

-- A timer that fires a second time for the same task changes nothing and emits no signal.
pub expired_twice :
    (r : Registry) (n now later : ℤ)
    → let q = (on_delay_timer_expired n now r).0 in on_delay_timer_expired n later q ≡ (q, [])
expired_twice r n now later =
    on_delay_timer_expired_late (on_delay_timer_expired n now r).0 n later λ ti e.
      unfold get_task on_delay_timer_expired in
      ground (arith, lookup-modify n n (start_running now) r.tasks, beq_refl int_key n)

-- Stopping a task does to its record what `stop_instance` does, and to no other record anything.
pub get_task-stop_task :
    (r : Registry) (n now k : ℤ)
    → get_task k (stop_task n now r)
      ≡ (if eqb_ℤ n k then Option.map (stop_instance now) (get_task k r) else get_task k r)
unfolding get_task stop_task stop_instance
get_task-stop_task r n now k =
    ground (arith, lookup-modify n k (stop_instance now) r.tasks, eqb_ℤ_iff n k)

abbrev pub ended : Option TaskInstance → Bool
ended none = true
ended (some t) = if is_active t.state then false else true

abbrev is_idle : Option TaskInstance → Bool
is_idle none = false
is_idle (some t) = state_eq t.state idle

-- `stopAll` does to every record what `stopTask` does, so that none is active afterwards, and
-- leaves no timer but to a record that is idle.
pub stop_all_lem :
    (r : Registry) (now n : ℤ)
    → Inv r
    → is_idle (get_task n r) ≡ false
    → (get_task n (stop_all now r) ≡ get_task n (stop_task n now r))
      × (ended (get_task n (stop_all now r)) ≡ true)
      × (timer_of n (stop_all now r) ≡ none)
unfolding get_task timer_of stop_all stop_task stop_instance
stop_all_lem r now n v h = elim (Option-cases (lookup n r.tasks)) [
  | inl e ↦ (
    ground (arith, lookup-adjust n (stop_instance now) r.tasks),
    ground (arith, lookup-adjust n (stop_instance now) r.tasks),
    (stop_all-Inv r v now).timely n (ground (arith, lookup-adjust n (stop_instance now) r.tasks)),
  )
  | inr (ti, e) ↦ (
    ground (
      arith,
      lookup-adjust n (stop_instance now) r.tasks,
      lookup-modify n n (stop_instance now) r.tasks,
      beq_refl int_key n,
    ),
    ground (arith, lookup-adjust n (stop_instance now) r.tasks),
    (stop_all-Inv r v now).timely n (ground (arith, lookup-adjust n (stop_instance now) r.tasks)),
  )
]

count_running-adjust :
    (now : ℤ) (m : Dict ℤ TaskInstance) → count_running (values (adjust (stop_instance now) m)) ≡ 0
unfolding count_running adjust stop_instance
count_running-adjust now [] = refl
count_running-adjust now ((k, t) ∷ m) = ground (arith, count_running-adjust now m)

-- No task counts as running after `stopAll`.
pub running_count-stop_all : (r : Registry) (now : ℤ) → running_count (stop_all now r) ≡ 0
unfolding running_count stop_all
running_count-stop_all r now = count_running-adjust now r.tasks

-- A state change writes the record, drops the timer of a task that ends, and signals
-- accordingly: one for finished, one with the error kept in the record for failed,
-- none otherwise, and none for a number without a record.
pub update_state_signals :
    (r : Registry) (n now : ℤ) (s : TaskState) (msg : String) (ti : TaskInstance)
    → get_task n r ≡ some ti
    → let (q, signals) = update_state n s msg now r in
      (get_task n q ≡ some (with_state s msg now ti))
      × (signals ≡ state_signals s n (with_state s msg now ti))
      × (timer_of n q ≡ (if is_terminal s then none else timer_of n r))
unfolding update_state get_task timer_of
update_state_signals r n now s msg ti e = ground (
  arith,
  lookup-modify n n (with_state s msg now) r.tasks,
  lookup-erase n n r.timers,
  beq_refl int_key n,
)
