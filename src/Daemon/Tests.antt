-- ===== src/Daemon/Tests.antt =====
-- The theorems about the registry, the executor and the runner at concrete inputs.

use macrohelp.Base.{
  pos, ◌*ℤ◌, ◌+ℤ◌, wrap32, none, some, true, false, ◌||◌, [], ◌∷◌, ◌++◌, eqb_ℤ, ◌≡◌, ◌≢◌, refl,
  arith, if◌then◌else◌,
}
use macrohelp.Base.Dict.{int_key, lookup, insert, erase}
use macrohelp.Daemon.Types.{
  TaskInstance, idle, scheduled, running, finished, stopped, failed, state_eq,
}
use macrohelp.Daemon.Registry.{
  Registry, task_finished, empty, new_task, schedule_task, interval_of, get_task, update_state,
  with_state, state_signals, list_tasks, running_count, stop_all, stop_task, stop_instance,
  on_delay_timer_expired, start_running, is_terminal,
}
use macrohelp.Daemon.Registry.Invariant.{Inv, empty-Inv, schedule_task-Inv}
use macrohelp.Daemon.Registry.Calls.{stops_all, expires, run, run-Inv}
use macrohelp.Daemon.Registry.Listing.{Ordered, find_number, kept, list_tasks_lem}
use macrohelp.Daemon.Registry.Lifecycle.{
  timer_of, get_task-schedule_task, interval_of_exact, on_delay_timer_expired_late,
  expired_after_stop, expired_twice, stop_all_lem, ended, running_count-stop_all,
  update_state_signals,
}
use macrohelp.Daemon.Executor
use macrohelp.Daemon.Executor.{Executor, load_from_task}
use macrohelp.Daemon.Executor.Rounds.{run_finite, run_endless, whole_run, never}
use macrohelp.Daemon.Runner.{
  Disk, loaded, Handle, Engine, of_registry, execution_finished, execute_task, stop_task_thread,
  stop_handle, on_task_finished, owner,
}
use macrohelp.Daemon.Runner.Addresses
use macrohelp.Daemon.Runner.Transitions.{stop_task_thread_lem, on_task_finished_lem}
use macrohelp.Daemon.Runner.Race.{stop_request, expire, stop_is_lost}

-- One task of number 1, scheduled at time 1000 to start after ten seconds.
abbrev pub first : TaskInstance
unfolding new_task
first = new_task (pos 1) "a" "/tasks/a.scht" (pos 10) (pos 1) "" (pos 1000)

pub first_state : first.state ≡ scheduled
unfolding first
first_state = refl

pub sample : Registry
unfolding schedule_task
sample = (schedule_task "a" "/tasks/a.scht" (pos 10) (pos 1) "" (pos 1000) empty).1

pub sample-Inv : Inv sample
unfolding sample
sample-Inv =
    schedule_task-Inv empty empty-Inv "a" "/tasks/a.scht" (pos 10) (pos 1) "" (pos 1000)
      (omega arith) (omega arith)

pub task_in_sample : get_task (pos 1) sample ≡ some first
unfolding sample get_task lookup insert
task_in_sample = refl

pub sample_next : sample.next_task_number ≡ pos 2
unfolding sample wrap32 ◌+ℤ◌
sample_next = refl

abbrev one_tick : Executor
one_tick = record {
  actions_list = some 7 ∷ [];
  loop = false;
  times_to_run = 2;
  have_to_stop = false;
}

two_rounds : Executor.run 3 never one_tick ≡ some (whole_run (some 7 ∷ []) 2)
two_rounds = run_finite one_tick 3 refl (omega arith) (omega arith)

endless_example : Executor.run 5 never (record one_tick { loop = true }) ≡ none
endless_example = run_endless 5 (record one_tick { loop = true }) refl

run-Inv_example : Inv (run ((expires (pos 1), pos 11000) ∷ (stops_all, pos 12000) ∷ []) sample)
unfolding sample wrap32 ◌+ℤ◌
run-Inv_example =
    run-Inv ((expires (pos 1), pos 11000) ∷ (stops_all, pos 12000) ∷ []) sample sample-Inv
      (omega arith) (omega arith)

interval_example : interval_of (pos 10) ≡ pos 10 *ℤ pos 1000
interval_example = interval_of_exact (pos 10) (omega arith) (omega arith)

late_example : on_delay_timer_expired (pos 2) (pos 11000) sample ≡ (sample, [])
unfolding sample get_task lookup insert
late_example = on_delay_timer_expired_late sample (pos 2) (pos 11000) (λ ti e. cc)

schedule_example :
    (get_task (schedule_task "b" "/b" (pos 1) (pos 1) "" (pos 0) sample).0.task_number sample
      ≡ none)
    × (get_task (pos 1) (schedule_task "b" "/b" (pos 1) (pos 1) "" (pos 0) sample).1 ≡ (
        if eqb_ℤ (schedule_task "b" "/b" (pos 1) (pos 1) "" (pos 0) sample).0.task_number (pos 1)
        then some (schedule_task "b" "/b" (pos 1) (pos 1) "" (pos 0) sample).0
        else get_task (pos 1) sample))
    × (timer_of
          (schedule_task "b" "/b" (pos 1) (pos 1) "" (pos 0) sample).0.task_number
          (schedule_task "b" "/b" (pos 1) (pos 1) "" (pos 0) sample).1
        ≡ some (record {
          interval = interval_of (pos 1);
          number = (schedule_task "b" "/b" (pos 1) (pos 1) "" (pos 0) sample).0.task_number;
        }))
    × ((schedule_task "b" "/b" (pos 1) (pos 1) "" (pos 0) sample).0.state ≡ scheduled)
schedule_example =
    get_task-schedule_task sample "b" "/b" (pos 1) (pos 1) "" (pos 0) (pos 1) sample-Inv

after_stop_example :
    on_delay_timer_expired (pos 1) (pos 11000) (stop_task (pos 1) (pos 5000) sample)
    ≡ (stop_task (pos 1) (pos 5000) sample, [])
after_stop_example = expired_after_stop sample (pos 1) (pos 5000) (pos 11000)

twice_example :
    on_delay_timer_expired (pos 1) (pos 12000) (on_delay_timer_expired (pos 1) (pos 11000) sample).0
    ≡ ((on_delay_timer_expired (pos 1) (pos 11000) sample).0, [])
twice_example = expired_twice sample (pos 1) (pos 11000) (pos 12000)

stop_all_example :
    (get_task (pos 1) (stop_all (pos 5000) sample)
      ≡ get_task (pos 1) (stop_task (pos 1) (pos 5000) sample))
    × (ended (get_task (pos 1) (stop_all (pos 5000) sample)) ≡ true)
    × (timer_of (pos 1) (stop_all (pos 5000) sample) ≡ none)
unfolding first
stop_all_example = stop_all_lem sample (pos 5000) (pos 1) sample-Inv (rw task_in_sample)

none_running_example : running_count (stop_all (pos 5000) sample) ≡ 0
none_running_example = running_count-stop_all sample (pos 5000)

fail_example :
    (get_task (pos 1) (update_state (pos 1) failed "lost" (pos 5000) sample).0
      ≡ some (with_state failed "lost" (pos 5000) first))
    × ((update_state (pos 1) failed "lost" (pos 5000) sample).1
        ≡ state_signals failed (pos 1) (with_state failed "lost" (pos 5000) first))
    × (timer_of (pos 1) (update_state (pos 1) failed "lost" (pos 5000) sample).0
        ≡ (if is_terminal failed then none else timer_of (pos 1) sample))
fail_example = update_state_signals sample (pos 1) (pos 5000) failed "lost" first task_in_sample

list_example :
    Ordered (list_tasks scheduled sample)
    × (find_number (pos 1) (list_tasks scheduled sample)
        ≡ kept
            (λ t. state_eq scheduled idle || state_eq t.state scheduled)
            (get_task (pos 1) sample))
list_example = list_tasks_lem sample scheduled (pos 1) sample-Inv

abbrev disk : Disk
disk = record { exists = λ path. true; load = λ path. loaded (some 1 ∷ none ∷ []) }

abbrev no_disk : Disk
no_disk = record { exists = λ path. false; load = λ path. loaded [] }

-- The engine before the task starts, and one that runs it.
abbrev pub waiting : Engine
waiting = record { registry = sample; executors = []; allocated = 0; terminated = []; emitted = [] }

abbrev handle : Handle
handle = record { address = 0; executor = one_tick }

abbrev busy : Engine
busy = record waiting { executors = (pos 1, handle) ∷ []; allocated = 1 }

busy-Inv : Addresses.Inv busy
busy-Inv = record { apart = (tt, tt); bounded = (omega arith, tt) }

busy_handle : lookup (pos 1) busy.executors ≡ some handle
unfolding lookup
busy_handle = refl

busy_owner : owner 0 busy.executors ≡ some (pos 1)
unfolding owner
busy_owner = refl

abbrev halted : Engine
halted = stop_request (pos 1) (pos 12000) (expire (pos 1) (pos 11000) waiting)

abbrev resumed : Engine
resumed = execute_task disk (pos 1) first.task_path first.loop_times (pos 13000) halted

nothing_held : lookup (pos 1) waiting.executors ≡ none
unfolding lookup
nothing_held = refl

lost_example :
    (get_task (pos 1) halted.registry
      ≡ some (stop_instance (pos 12000) (start_running (pos 11000) first)))
    × (get_task (pos 1) resumed.registry
        ≡ some (
            with_state running ""
              (pos 13000)
              (stop_instance (pos 12000) (start_running (pos 11000) first))))
    × (lookup (pos 1) resumed.executors ≢ none)
unfolding first
lost_example =
    stop_is_lost waiting disk (pos 1) (pos 11000) (pos 12000) (pos 13000) first (some 1 ∷ none ∷ [])
      task_in_sample refl nothing_held refl refl

stop_thread_example :
    (get_task (pos 1) (stop_task_thread (pos 1) (pos 5000) busy).registry
      ≡ some (record first { state = stopped; finished_at = some (pos 5000) }))
    × ((stop_task_thread (pos 1) (pos 5000) busy).terminated ≡ [] ++ (stop_handle handle ∷ []))
    × (lookup (pos 1) (stop_task_thread (pos 1) (pos 5000) busy).executors ≡ none)
    × (on_task_finished 0 (pos 6000) (stop_task_thread (pos 1) (pos 5000) busy)
        ≡ stop_task_thread (pos 1) (pos 5000) busy)
stop_thread_example =
    stop_task_thread_lem busy (pos 1) (pos 5000) (pos 6000) handle first busy-Inv busy_handle
      task_in_sample

report_example :
    (get_task (pos 1) (on_task_finished 0 (pos 9000) busy).registry
      ≡ some
          (if state_eq first.state stopped then first else with_state finished "" (pos 9000) first))
    × ((on_task_finished 0 (pos 9000) busy).emitted
        ≡ []
          ++ (if state_eq first.state stopped
              then []
              else of_registry (task_finished (pos 1) first.task_name)
                ∷ execution_finished (pos 1) first.task_name
                ∷ []))
    × ((on_task_finished 0 (pos 9000) busy).executors ≡ erase (pos 1) busy.executors)
report_example = on_task_finished_lem busy (pos 1) (pos 9000) 0 first busy_owner refl task_in_sample
