-- ===== src/Daemon/Runner.antt =====
-- http-daemon/src/TaskRunner.cpp: from an expired delay to a running executor and its end.
-- The registry that the runner points to is part of the state here. An executor on the heap has an
-- address; a thread that was told to stop is kept in `terminated`. What a call emits is queued in
-- `emitted`, oldest first, for the receivers that http-daemon/src/main.cpp connects.
pub mod Addresses
pub mod Transitions
pub mod Race
pub mod Soundness
use macrohelp.Base.{
  ℤ, ℕ, ◌+◌, ◌==◌, pos_part, ltb_ℤ, pos, String, Option, none, some, Bool, true, false, List, [],
  ◌∷◌, ◌++◌, map, if◌then◌else◌,
}
use macrohelp.Base.Dict.{Dict, int_key, lookup, insert, erase}
use Prim.Native.String.{◌++◌ as ◌<>◌}
use macrohelp.Daemon.Types.{TaskInstance, TaskState, stopped, state_eq}
use macrohelp.Daemon.Registry.{
  Registry, Signal, get_task, mark_started, mark_finished, mark_failed, mark_stopped,
}
use macrohelp.Daemon.Executor.{Executor, load_from_task, set_loop, stop_gracefully}
use macrohelp.Daemon.Executor

-- What the loader makes of a file: an error text, or the actions of the task.
pub data Loaded : Type 0 where
  refused : String → Loaded
  loaded : List (Option ℕ) → Loaded

-- The disk at the moment of a call: `QFile::exists` and the loader's result for a path.
pub record Disk : Type 0 where
  pub exists : String → Bool
  pub load : String → Loaded

pub record Handle : Type 0 where
  pub address : ℕ
  pub executor : Executor

pub data Notice : Type 0 where
  of_registry : Signal → Notice
  execution_started : ℤ → String → Notice
  execution_finished : ℤ → String → Notice

pub record Engine : Type 0 where
  pub registry : Registry
  pub executors : Dict ℤ Handle
  pub allocated : ℕ
  pub terminated : List Handle
  pub emitted : List Notice

-- A registry call made by the runner.
abbrev pub through : (Registry → Registry × List Signal) → Engine → Engine
through f s =
    let (r, signals) = f s.registry in
    record s { registry = r; emitted = s.emitted ++ map of_registry signals }

abbrev pub emit : Notice → Engine → Engine
emit n s = record s { emitted = s.emitted ++ (n ∷ []) }

-- `static_cast<unsigned int>` of an `int` that is not negative.
unfoldable pub loop_mode : ℤ → Executor → Executor
unfolding set_loop
loop_mode loops x =
    if ltb_ℤ loops (pos 0) then set_loop true 1 x else set_loop false (pos_part loops) x

pub launch : ℤ → List (Option ℕ) → ℤ → ℤ → Engine → Engine
unfolding loop_mode load_from_task
launch n actions loops now s =
    let x = loop_mode loops (load_from_task (some actions) Executor.new) in
    let h : Handle = record { address = s.allocated; executor = x } in
    let s1 : Engine = record s {
      executors = insert n h s.executors;
      allocated = s.allocated + 1;
    } in
    let s2 = through (mark_started n now) s1 in
    elim (get_task n s2.registry) [
      | none ↦ s2
      | some ti ↦ emit (execution_started n ti.task_name) s2
    ]

unfoldable pub execute_task : Disk → ℤ → String → ℤ → ℤ → Engine → Engine
unfolding launch
execute_task disk n path loops now s =
    if disk.exists path
    then elim (disk.load path) [
      | refused error ↦ through (mark_failed n error now) s
      | loaded actions ↦ launch n actions loops now s
    ]
    else through (mark_failed n ("Task file not found: " <> path) now) s

-- `stopGracefully` sets the flag and ends the thread.
unfoldable pub stop_handle : Handle → Handle
unfolding stop_gracefully
stop_handle h = record h { executor = stop_gracefully h.executor }

unfoldable pub stop_each : Dict ℤ Handle → ℤ → Engine → Engine
unfolding stop_handle
stop_each [] now s = s
stop_each ((n, h) ∷ hs) now s =
    stop_each hs now (
      through (mark_stopped n now) (record s { terminated = s.terminated ++ (stop_handle h ∷ []) }))

unfoldable pub stop_all_tasks : ℤ → Engine → Engine
unfolding stop_each
stop_all_tasks now s = record (stop_each s.executors now s) { executors = [] }

unfoldable pub stop_task_thread : ℤ → ℤ → Engine → Engine
unfolding stop_handle
stop_task_thread n now s = elim (lookup n s.executors) [
  | none ↦ s
  | some h ↦ through (mark_stopped n now) (record s {
    terminated = s.terminated ++ (stop_handle h ∷ []);
    executors = erase n s.executors;
  })
]

-- The first task number whose executor is the sender.
unfoldable pub owner : ℕ → Dict ℤ Handle → Option ℤ
owner address [] = none
owner address ((n, h) ∷ hs) = if h.address == address then some n else owner address hs

-- The signal `sendFinishedAllLoops` of the executor at an address. The source gives -1 to an
-- executor that it does not find and returns on every negative number; a task number is positive.
unfoldable pub on_task_finished : ℕ → ℤ → Engine → Engine
unfolding owner
on_task_finished address now s = elim (owner address s.executors) [
  | none ↦ s
  | some n ↦
      if ltb_ℤ n (pos 0)
      then s
      else (let s1 : Engine = record s { executors = erase n s.executors } in
          elim (get_task n s1.registry) [
            | none ↦ s1
            | some ti ↦
                if state_eq ti.state stopped
                then s1
                else emit (execution_finished n ti.task_name) (through (mark_finished n now) s1)
          ])
]
