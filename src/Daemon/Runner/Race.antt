-- ===== src/Daemon/Runner/Race.antt =====
-- The window between an expired delay and `executeTask`: `onDelayTimerExpired` releases the lock
-- before it emits, so that `handleStop`, on a thread of the HTTP server, can come between.
use macrohelp.Base.{ℤ, ℕ, Option, none, some, List, ◌≡◌, ◌∙◌, ◌≢◌, true}
use macrohelp.Base.Dict.{int_key, lookup, beq_refl}
use macrohelp.Daemon.Types.{TaskInstance, scheduled, running}
use macrohelp.Daemon.Registry.{
  Registry, get_task, stop_task, stop_instance, on_delay_timer_expired, start_running, with_state,
}
use macrohelp.Daemon.Registry.Lifecycle.{get_task-stop_task, on_delay_timer_expired_due}
use macrohelp.Daemon.Runner.{Disk, Engine, loaded, execute_task, stop_task_thread}
use macrohelp.Daemon.Runner.Transitions.{execute_task_loaded}

-- The calls that a stop of one task makes.
unfoldable pub stop_request : ℤ → ℤ → Engine → Engine
stop_request n now s =
    let q = stop_task_thread n now s in record q { registry = stop_task n now q.registry }

abbrev pub expire : ℤ → ℤ → Engine → Engine
expire n now s = record s { registry = (on_delay_timer_expired n now s.registry).0 }

stop_request_idle :
    (s : Engine) (n now : ℤ)
    → lookup n s.executors ≡ none
    → stop_request n now s ≡ record s { registry = stop_task n now s.registry }
unfolding stop_request stop_task_thread
stop_request_idle s n now e = rw (e, stop_task_thread)

stopped_after_start :
    (r : Registry) (n now : ℤ) (ti : TaskInstance)
    → get_task n r ≡ some ti
    → get_task n (stop_task n now r) ≡ some (stop_instance now ti)
stopped_after_start r n now ti e = get_task-stop_task r n now n ∙ rw (beq_refl int_key n) (rw e)

-- A stop that comes after the delay of a task has expired and before the request to execute it is
-- served is lost: the task ends up running, with an executor, though the stop found it and the
-- registry had recorded it as stopped.
pub stop_is_lost :
    (s : Engine) (disk : Disk) (n : ℤ) (expired stopping starting : ℤ) (ti : TaskInstance)
    (acts : List (Option ℕ))
    → get_task n s.registry ≡ some ti
    → ti.state ≡ scheduled
    → lookup n s.executors ≡ none
    → disk.exists ti.task_path ≡ true
    → disk.load ti.task_path ≡ loaded acts
    → let halted = stop_request n stopping (expire n expired s) in
      let q = execute_task disk n ti.task_path ti.loop_times starting halted in
      (get_task n halted.registry ≡ some (stop_instance stopping (start_running expired ti)))
      × (get_task n q.registry
          ≡ some
              (with_state running "" starting (stop_instance stopping (start_running expired ti))))
      × (lookup n q.executors ≢ none)
stop_is_lost s disk n expired stopping starting ti acts f due idle there good =
    let q = record (expire n expired s) {
      registry = stop_task n stopping (expire n expired s).registry;
    } in
    let stop : stop_request n stopping (expire n expired s) ≡ q =
      stop_request_idle _ n stopping idle in
    let (started, _, _) = on_delay_timer_expired_due s.registry n expired ti f due in
    let halted = stopped_after_start (expire n expired s).registry n stopping _ started in
    let (ran, held, _) =
      execute_task_loaded q disk n ti.task_path ti.loop_times starting _ acts there good halted in
    rw stop (halted, ran, λ e. cc)
