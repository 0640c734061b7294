-- ===== src/Daemon/Registry.antt =====
-- http-daemon/src/TaskRegistry.cpp: the registry of task instances and of their delay timers.
-- Each call runs under `m_mutex`, so it is one function on the registry. The clock is an argument
-- of each call. `delete` and `deleteLater` of a timer have no trace but its entry.
pub mod Invariant
pub mod Calls
pub mod Listing
pub mod Lifecycle
use text.Mathlib.Text.{◌==◌ as str_eq}
use macrohelp.Base.{
  ℤ, pos, ◌+ℤ◌, ◌*ℤ◌, wrap32, ltb_ℤ, ℕ, suc, String, Option, none, some, Bool, ◌||◌, List, [], ◌∷◌,
  if◌then◌else◌, is_some, select,
}
use macrohelp.Base.Dict.{Dict, int_key, lookup, insert, erase, modify, adjust, values}
use macrohelp.Daemon.Types.{
  TaskState, idle, scheduled, running, finished, stopped, failed, TaskInstance, state_eq,
}

-- A started single-shot timer: its interval, and the number in its property.
pub record Timer : Type 0 where
  pub interval : ℤ
  pub number : ℤ

pub record Registry : Type 0 where
  pub tasks : Dict ℤ TaskInstance
  pub timers : Dict ℤ Timer
  pub next_task_number : ℤ

pub data Signal : Type 0 where
  execute_requested : ℤ → String → ℤ → Signal
  task_finished : ℤ → String → Signal
  task_failed : ℤ → String → String → Signal

abbrev pub empty : Registry
empty = record { tasks = []; timers = []; next_task_number = pos 1 }

-- The milliseconds of an `int` count of seconds; the product is an `int` too.
unfoldable pub interval_of : ℤ → ℤ
interval_of delay = wrap32 (delay *ℤ pos 1000)

-- The record of a new task. `addSecs` takes a wide integer, so the due time does not wrap.
unfoldable pub new_task : ℤ → String → String → ℤ → ℤ → String → ℤ → TaskInstance
new_task number name path delay loops description now = record {
  task_number = number;
  task_name = name;
  task_path = path;
  state = scheduled;
  delay_seconds = delay;
  loop_times = loops;
  created_at = now;
  scheduled_to_run_at = now +ℤ delay *ℤ pos 1000;
  started_at = none;
  finished_at = none;
  error_message = "";
  description = description;
}

unfoldable pub schedule_task :
    String → String → ℤ → ℤ → String → ℤ → Registry → TaskInstance × Registry
unfolding new_task interval_of
schedule_task name path delay loops description now r =
    let number = r.next_task_number in
    let ti = new_task number name path delay loops description now in
    let timer : Timer = record { interval = interval_of delay; number = number } in
    (
      ti,
      record {
        tasks = insert number ti r.tasks;
        timers = insert number timer r.timers;
        next_task_number = wrap32 (number +ℤ pos 1);
      },
    )

unfoldable pub get_task : ℤ → Registry → Option TaskInstance
get_task n r = lookup n r.tasks

abbrev pub is_terminal : TaskState → Bool
is_terminal s = state_eq s finished || state_eq s stopped || state_eq s failed

abbrev pub is_active : TaskState → Bool
is_active s = state_eq s scheduled || state_eq s running

-- What `updateState` writes through the pointer.
unfoldable pub with_state : TaskState → String → ℤ → TaskInstance → TaskInstance
with_state new_state msg now ti = record ti {
  state = new_state;
  error_message = if str_eq msg "" then ti.error_message else msg;
  started_at =
      if state_eq new_state running
      then if is_some ti.started_at then ti.started_at else some now
      else ti.started_at;
  finished_at = if is_terminal new_state then some now else ti.finished_at;
}

-- The signal that `updateState` emits once the lock is released.
unfoldable pub state_signals : TaskState → ℤ → TaskInstance → List Signal
state_signals finished n ti = task_finished n ti.task_name ∷ []
state_signals failed n ti = task_failed n ti.task_name ti.error_message ∷ []
state_signals _ n ti = []

unfoldable pub update_state : ℤ → TaskState → String → ℤ → Registry → Registry × List Signal
unfolding with_state state_signals
update_state n new_state msg now r = elim (lookup n r.tasks) [
  | none ↦ (r, [])
  | some ti ↦ (
    record r {
      tasks = modify n (with_state new_state msg now) r.tasks;
      timers = if is_terminal new_state then erase n r.timers else r.timers;
    },
    state_signals new_state n (with_state new_state msg now ti),
  )
]

unfoldable pub mark_started : ℤ → ℤ → Registry → Registry × List Signal
mark_started n = update_state n running ""

unfoldable pub mark_finished : ℤ → ℤ → Registry → Registry × List Signal
mark_finished n = update_state n finished ""

unfoldable pub mark_failed : ℤ → String → ℤ → Registry → Registry × List Signal
mark_failed n error = update_state n failed error

unfoldable pub mark_stopped : ℤ → ℤ → Registry → Registry × List Signal
mark_stopped n = update_state n stopped ""

-- The filter `Idle` means no filter. `sorted` is the `std::sort` by task number.
pub insert_by_number : TaskInstance → List TaskInstance → List TaskInstance
insert_by_number t [] = t ∷ []
insert_by_number t (u ∷ us) =
    if ltb_ℤ u.task_number t.task_number then u ∷ insert_by_number t us else t ∷ u ∷ us

unfoldable pub sorted : List TaskInstance → List TaskInstance
unfolding insert_by_number
sorted [] = []
sorted (t ∷ ts) = insert_by_number t (sorted ts)

unfoldable pub list_tasks : TaskState → Registry → List TaskInstance
unfolding sorted
list_tasks filter r =
    sorted (select (λ t. state_eq filter idle || state_eq t.state filter) (values r.tasks))

unfoldable pub all_tasks : Registry → List TaskInstance
unfolding list_tasks
all_tasks = list_tasks idle

count_running : List TaskInstance → ℕ
count_running [] = 0
count_running (t ∷ ts) =
    if state_eq t.state running then suc (count_running ts) else count_running ts

unfoldable pub running_count : Registry → ℕ
unfolding count_running
running_count r = count_running (values r.tasks)

unfoldable pub stop_instance : ℤ → TaskInstance → TaskInstance
stop_instance now ti =
    if is_active ti.state then record ti { state = stopped; finished_at = some now } else ti

-- The loop of `stopAll` over the timers: that of each task that it stops is erased.
pub erase_active : Dict ℤ TaskInstance → Dict ℤ Timer → Dict ℤ Timer
erase_active [] timers = timers
erase_active ((n, t) ∷ ts) timers =
    erase_active ts (if is_active t.state then erase n timers else timers)

unfoldable pub stop_all : ℤ → Registry → Registry
unfolding erase_active stop_instance
stop_all now r = record r {
  tasks = adjust (stop_instance now) r.tasks;
  timers = erase_active r.tasks r.timers;
}

unfoldable pub stop_task : ℤ → ℤ → Registry → Registry
unfolding stop_instance
stop_task n now r = elim (lookup n r.tasks) [
  | none ↦ r
  | some ti ↦
      if is_active ti.state
      then record r { tasks = modify n (stop_instance now) r.tasks; timers = erase n r.timers }
      else r
]

abbrev pub start_running : ℤ → TaskInstance → TaskInstance
start_running now ti = record ti { state = running; started_at = some now }

-- The timer with task number `n` in its property fires.
unfoldable pub on_delay_timer_expired : ℤ → ℤ → Registry → Registry × List Signal
on_delay_timer_expired n now r = elim (lookup n r.tasks) [
  | none ↦ (r, [])
  | some ti ↦
      if state_eq ti.state scheduled
      then (
        record r { tasks = modify n (start_running now) r.tasks; timers = erase n r.timers },
        execute_requested n ti.task_path ti.loop_times ∷ [],
      )
      else (r, [])
]
