-- ===== src/Daemon/Types.antt =====
-- http-daemon/include/Types.h: the states of a task and the record that the registry keeps of it.
-- A `QDateTime` is its count of milliseconds, and `none` is the invalid one.
use macrohelp.Base.{ℤ, String, Option, Bool, true, false}

pub data TaskState : Type 0 where
  idle scheduled running finished stopped failed : TaskState

pub task_state_to_string : TaskState → String
task_state_to_string idle = "idle"
task_state_to_string scheduled = "scheduled"
task_state_to_string running = "running"
task_state_to_string finished = "finished"
task_state_to_string stopped = "stopped"
task_state_to_string failed = "failed"

-- The `==` of the enum.
abbrev pub state_eq : TaskState → TaskState → Bool
state_eq idle idle = true
state_eq scheduled scheduled = true
state_eq running running = true
state_eq finished finished = true
state_eq stopped stopped = true
state_eq failed failed = true
state_eq _ _ = false

pub record TaskInstance : Type 0 where
  pub task_number : ℤ
  pub task_name : String
  pub task_path : String
  pub state : TaskState
  pub delay_seconds : ℤ
  pub loop_times : ℤ
  pub created_at : ℤ
  pub scheduled_to_run_at : ℤ
  pub started_at : Option ℤ
  pub finished_at : Option ℤ
  pub error_message : String
  pub description : String
