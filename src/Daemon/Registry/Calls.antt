-- ===== src/Daemon/Registry/Calls.antt =====
-- Histories of the registry: the calls of its public interface, and the timers that fire.
use macrohelp.Base.{
  ℤ, pos, ◌<ℤ◌, wrap32_suc, pos_part, ◌+◌, ◌<◌, String, List, [], ◌∷◌, length, arith,
}
use macrohelp.Base.Dict.{int_key}
use macrohelp.Daemon.Types.{TaskState}
use macrohelp.Daemon.Registry.{
  Registry, Signal, schedule_task, update_state, stop_all, stop_task, on_delay_timer_expired,
}
use macrohelp.Daemon.Registry.Invariant.{
  Inv, schedule_task-Inv, update_state-Inv, stop_task-Inv, on_delay_timer_expired-Inv, stop_all-Inv,
}

-- `mark*` are `updates`. Reads change nothing and are left out.
pub data Call : Type 0 where
  schedules : String → String → ℤ → ℤ → String → Call
  updates : ℤ → TaskState → String → Call
  stops : ℤ → Call
  stops_all : Call
  expires : ℤ → Call

unfoldable pub step : Call → ℤ → Registry → Registry × List Signal
step (schedules name path delay loops description) now r =
    ((schedule_task name path delay loops description now r).1, [])
step (updates n s msg) now r = update_state n s msg now r
step (stops n) now r = (stop_task n now r, [])
step stops_all now r = (stop_all now r, [])
step (expires n) now r = on_delay_timer_expired n now r

unfoldable pub run : List (Call × ℤ) → Registry → Registry
run [] r = r
run ((c, now) ∷ cs) r = run cs (step c now r).0

-- Every call counts the next number up by one or leaves it.
step_next :
    (c : Call) (now : ℤ) (r : Registry)
    → pos 0 <ℤ r.next_task_number
    → r.next_task_number <ℤ pos 2147483647
    → let n = (step c now r).0.next_task_number in
      (pos 0 <ℤ n) × (pos_part n < pos_part r.next_task_number + 2)
unfolding step schedule_task update_state stop_task stop_all on_delay_timer_expired
step_next (schedules name path delay loops description) now r p q =
    ((wrap32_suc _ p q).1, (wrap32_suc _ p q).2)
step_next (updates n s msg) now r p q = ground arith
step_next (stops n) now r p q = ground arith
step_next stops_all now r p q = (p, omega arith)
step_next (expires n) now r p q = ground arith

step-Inv :
    (c : Call) (now : ℤ) (r : Registry)
    → Inv r
    → pos 0 <ℤ r.next_task_number
    → r.next_task_number <ℤ pos 2147483647
    → Inv (step c now r).0
unfolding step
step-Inv (schedules name path delay loops description) now r v p q =
    schedule_task-Inv r v name path delay loops description now p q
step-Inv (updates n s msg) now r v p q = update_state-Inv r v n s msg now
step-Inv (stops n) now r v p q = stop_task-Inv r v n now
step-Inv stops_all now r v p q = stop_all-Inv r v now
step-Inv (expires n) now r v p q = on_delay_timer_expired-Inv r v n now

-- Every history of calls and timers leaves a well-formed registry well-formed, as long as the task
-- numbers that it can use up are positive `int`s.
pub run-Inv :
    (cs : List (Call × ℤ)) (r : Registry)
    → Inv r
    → pos 0 <ℤ r.next_task_number
    → pos_part r.next_task_number + length cs < 2147483648
    → Inv (run cs r)
unfolding run
run-Inv [] r v p q = v
run-Inv ((c, now) ∷ cs) r v p q =
    let (p', q') = step_next c now r p (omega arith) in
    run-Inv cs (step c now r).0 (step-Inv c now r v p (omega arith)) p' (omega arith)
