-- ===== src/Daemon/World.antt =====
-- http-daemon/src/main.cpp: the daemon as a whole. Its inputs are requests, timers that fire, queued
-- signals that reach their receivers, executors that report, and tasks that ask for other tasks.
pub mod Good
pub mod Handlers
pub mod Safety
pub mod Completion
use Prim.Native.String.{◌++◌ as ◌<>◌}
use text.Mathlib.Text.{◌==◌ as str_eq}
use macrohelp.Base.{
  ℤ, pos, ltb_ℤ, eqb_ℤ, ℕ, String, Option, none, some, Bool, List, [], ◌∷◌, if◌then◌else◌,
}
use macrohelp.Base.Json.{Json, obj, value, to_string}
use macrohelp.Daemon.Platform.{Platform, Entry}
use macrohelp.Daemon.Registry.{
  Signal, execute_requested, task_finished, task_failed, on_delay_timer_expired,
}
use macrohelp.Daemon.Runner.{
  Disk, Loaded, Engine, Notice, of_registry, execution_started, execution_finished, through,
  execute_task, on_task_finished,
}
use macrohelp.Daemon.Server.State.{Request, Server}
use macrohelp.Daemon.Server.Files.{cleanup_temp_task_file}
use macrohelp.Daemon.Server.Scheduling.{schedule}
use macrohelp.Daemon.Server.Routes.{respond}

pub data Input : Type 0 where
  request : Request → Input
  timer_fires : ℤ → Input
  signal_arrives : Input
  executor_reports : ℕ → Input
  task_requested : String → ℤ → ℤ → Input

-- The port that the command line may give.
unfoldable pub valid_port : ℤ → Bool
valid_port port = if ltb_ℤ (pos 0) port then ltb_ℤ port (pos 65536) else ltb_ℤ (pos 0) port

unfoldable pub default_delay_of : ℤ → ℤ
default_delay_of d = if ltb_ℤ d (pos 0) then pos 10 else d

module _ {F : Type 0} (p : Platform F) where
  -- The listing's entry with a name, and the name that it has there.
  find_other : String → List Entry → Option Entry
  find_other name [] = none
  find_other name (e ∷ es) =
      if p.same_ignoring_case e.base_name name then some e else find_other name es

  -- The file and the name of a task that another task asks for.
  unfoldable pub resolve_other : String → Server F → Option Entry
  unfolding find_other
  resolve_other filename s =
      let t = p.trimmed filename in
      let clean = (if p.has_extension t then p.chop_extension t else t) in
      let direct = p.file_in s.tasks_dir (clean <> p.keywords.extension) in
      let found : Option Entry =
        (if p.exists s.files direct
          then some (record { base_name = clean; path = direct })
          else find_other clean (p.schedules s.files s.tasks_dir)) in
      elim found [ none ↦ none | some e ↦ if str_eq e.path "" then none else some e ]

  abbrev description_of : Option Json → String
  description_of (some (obj fs)) = to_string (value p.keywords.description fs)
  description_of (some _) = ""
  description_of none = ""

  unfoldable pub run_other : String → ℤ → ℤ → ℤ → Server F → Server F
  unfolding schedule
  run_other filename delay loops now s = elim (resolve_other filename s) [
    | none ↦ s
    | some e ↦
        let text : Option Json = elim (p.read s.files e.path) [
          | none ↦ none
          | some t ↦ p.parse_json t
        ] in
        (schedule p e.base_name e.path (if ltb_ℤ delay (pos 0) then pos 0 else delay)
          (if eqb_ℤ loops (pos 0) then pos 1 else loops) (description_of text) now s).1
  ]

  abbrev on_engine : (Engine → Engine) → Server F → Server F
  on_engine f s = record s { engine = f s.engine }

  module _ (load : F → String → Loaded) where
    abbrev disk : Server F → Disk
    disk s = record { exists = p.exists s.files; load = load s.files }

    -- What the receiver of a signal does.
    unfoldable pub receive_signal : Notice → ℤ → Server F → Server F
    receive_signal (of_registry (execute_requested n path loops)) now s =
        on_engine (execute_task (disk s) n path loops now) s
    receive_signal (of_registry (task_finished n name)) now s = cleanup_temp_task_file p n s
    receive_signal (of_registry (task_failed n name error)) now s = cleanup_temp_task_file p n s
    receive_signal (execution_started n name) now s = s
    receive_signal (execution_finished n name) now s = s

    unfoldable pub arrive : List Notice → ℤ → Server F → Server F
    unfolding receive_signal
    arrive [] now s = s
    arrive (n ∷ rest) now s = receive_signal n now (on_engine (λ e. record e { emitted = rest }) s)

    module _ (version : String) (cors : Bool) where
      unfoldable pub step : Input → ℤ → Server F → Server F
      unfolding arrive run_other
      step (request req) now s = (respond p version cors req now s).0
      step (timer_fires n) now s = on_engine (through (on_delay_timer_expired n now)) s
      step signal_arrives now s = arrive s.engine.emitted now s
      step (executor_reports a) now s = on_engine (on_task_finished a now) s
      step (task_requested filename delay loops) now s = run_other filename delay loops now s

      unfoldable pub run : List (Input × ℤ) → Server F → Server F
      unfolding step
      run [] s = s
      run ((i, now) ∷ is) s = run is (step i now s)
