-- ===== src/Daemon/Loader.antt =====
-- http-daemon/src/TaskJsonLoader.cpp: the actions of a task file. `Tasket` is what the loader takes
-- from Tasket++, whose actions are not part of the repository; Read reads an action, Write prints
-- one, and Document loads a file.
pub mod Read
pub mod Write
pub mod Keys
pub mod RoundTrip
pub mod Document
use macrohelp.Base.{ℤ, ℕ, String, Option, Bool, List}
use macrohelp.Base.Dict.{Dict}
use macrohelp.Base.Json.{Json}

-- The classes of actions that the loader knows.
pub data Kind : Type 0 where
  paste : Kind
  wait : Kind
  keys_sequence : Kind
  system_command : Kind
  cursor_movements : Kind
  running_other_task : Kind

-- `ActionParameters`, the fields that the loader sets. A release delay goes with the keys of a step.
pub record Parameters (D : Type 0) : Type 0 where
  pub paste_content : String
  pub data_id : String
  pub times_to_run : ℤ
  pub wait_duration : D
  pub keys_seq_map : Dict ℤ (ℤ × List String)
  pub sys_cmd_type : String
  pub sys_cmd_param1 : String
  pub sys_cmd_param2 : String
  pub movements : List (List ℤ)
  pub optional_keys : List String
  pub task_name : String
  pub delay : ℤ

-- The key words of globals.h for actions.
pub record ActionKeywords : Type 0 where
  pub action_type : String
  pub paste_value : String
  pub wait_value : String
  pub keys_value : String
  pub system_value : String
  pub cursor_value : String
  pub other_value : String
  pub content : String
  pub content_id : String
  pub paste_loop : String
  pub duration : String
  pub keys_map : String
  pub keys_id : String
  pub keys_loop : String
  pub command_type : String
  pub command_param1 : String
  pub command_param2 : String
  pub movs_map : String
  pub movs_id : String
  pub movs_loop : String
  pub movs_keys : String
  pub other_filename : String
  pub other_delay : String
  pub other_loops : String

-- Actions `A`, whose waits last `D`.
pub record Tasket (A D : Type 0) : Type 0 where
  pub words : ActionKeywords
  -- `e_type`, and the test of a `dynamic_cast`
  pub type_of : A → Option Kind
  pub is_a : Kind → A → Bool
  -- `make_shared`, `setParameters`, `optionalProcesses`, `generateParameters`, `getRefID`
  pub make : Kind → A
  pub set_parameters : Parameters D → A → A
  pub optional_processes : A → A
  pub generate_parameters : A → Parameters D
  pub reference : A → ℕ
  -- a new `ActionParameters`
  pub new_parameters : Parameters D
  -- `toDouble()` stored as a duration, and a duration as a double
  pub duration_of : Option Json → D
  pub double_of : D → Json
  -- `QVariant::toString` of a value that is no text
  pub text_of : Json → String
