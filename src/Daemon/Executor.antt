-- ===== src/Daemon/Executor.antt =====
-- http-daemon/src/TaskExecutor.cpp: the thread that runs the actions of a task.
-- The main thread may set `m_haveToStop` at any time: `stop k` is what the thread reads at its k-th
-- look at the flag. `terminate()` may also end the thread between two looks; a trace cut short is
-- not modelled. An action is its reference id, `none` a null pointer.
pub mod Rounds
use macrohelp.Base.{
  ℕ, zero, suc, ◌+◌, ◌-◌, ◌%◌, ltb, Option, none, some, Bool, true, false, ◌||◌, List, [], ◌∷◌,
  ◌++◌, if◌then◌else◌,
}
use mathlib.Core.Option

pub record Executor : Type 0 where
  pub actions_list : List (Option ℕ)
  pub loop : Bool
  pub times_to_run : ℕ  -- unsigned int
  pub have_to_stop : Bool

pub data Event : Type 0 where
  running_act run_action done_act : ℕ → Event
  finished_one_loop finished_all_loops : Event

abbrev pub new : Executor
new = record { actions_list = []; loop = false; times_to_run = 1; have_to_stop = false }

-- The deep copies of the actions that are there.
copy_actions : List (Option ℕ) → List (Option ℕ)
copy_actions [] = []
copy_actions (none ∷ acts) = copy_actions acts
copy_actions (some a ∷ acts) = some a ∷ copy_actions acts

unfoldable pub load_from_task : Option (List (Option ℕ)) → Executor → Executor
unfolding copy_actions
load_from_task none x = record x { actions_list = [] }
load_from_task (some acts) x = record x { actions_list = copy_actions acts }

unfoldable pub set_loop : Bool → ℕ → Executor → Executor
set_loop loop times x = record x { loop = loop; times_to_run = times }

unfoldable pub stop_gracefully : Executor → Executor
stop_gracefully x = record x { have_to_stop = true }

-- `--m_timesToRun` of an unsigned int.
abbrev pub decrement : ℕ → ℕ
decrement n = (n + 4294967296 - 1) % 4294967296

-- What a pass over the actions emits, and the number of looks at the flag so far: `none` if it
-- returned from `run`.
pub record Pass : Type 0 where
  pub trace : List Event
  pub looks : Option ℕ

unfoldable pub pass : (ℕ → Bool) → List (Option ℕ) → ℕ → Pass
pass stop [] k = record { trace = []; looks = some k }
pass stop (none ∷ acts) k =
    let rest = pass stop acts (k + 1) in
    if stop k then record { trace = []; looks = none } else rest
pass stop (some a ∷ acts) k =
    let rest = pass stop acts (k + 2) in
    if stop k
    then record { trace = []; looks = none }
    else if stop (k + 1)
    then record { trace = running_act a ∷ run_action a ∷ []; looks = none }
    else record {
      trace = running_act a ∷ run_action a ∷ done_act a ∷ rest.trace;
      looks = rest.looks;
    }

-- The `goto begin` loop, with fuel for its rounds; `none` means that the fuel ran out.
unfoldable pub rounds : ℕ → (ℕ → Bool) → Executor → ℕ → Option (List Event)
unfolding pass
rounds zero stop x k = none
rounds (suc f) stop x k =
    let p = pass stop x.actions_list k in
    elim p.looks [
      | none ↦ some p.trace
      | some k' ↦
          let left = decrement x.times_to_run in
          let rest = rounds f stop (record x { times_to_run = left }) k' in
          if x.loop || ltb 0 left
          then Option.map (λ t. p.trace ++ (finished_one_loop ∷ t)) rest
          else some (p.trace ++ (finished_one_loop ∷ finished_all_loops ∷ []))
    ]

unfoldable pub run : ℕ → (ℕ → Bool) → Executor → Option (List Event)
unfolding rounds
run fuel stop x = rounds fuel stop x 0
