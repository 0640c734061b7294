-- ===== src/Hub/Dispatch.antt =====
-- The dispatch of runtime/source/src/registry_dispatch.inc: `SubmitRegistryDispatch`,
-- `FinishRegistryDispatch`, `CancelRegistryDispatch`, `TickRegistryDispatch` and
-- `ScheduleTasketRegistryHubScript`. The clock is an argument: whether the next poll is due. A future
-- that is valid is a poll here, and the reply that it has ready is an argument. A status pointer is
-- never null here, and windows, timers, logs and the state file are left out.
pub mod Order
pub mod Submission
pub mod Polling
pub mod Staleness
pub mod Reach
use macrohelp.Base.{
  ℕ, zero, suc, ◌+◌, ◌*◌, ◌%◌, ◌==◌, ℤ, pos, eqb_ℤ, Bool, true, false, ◌&&◌, ◌||◌, not, Option,
  none, some, List, [], ◌∷◌, ◌++◌, if◌then◌else◌,
}
use macrohelp.Control.Checked.{Checked, done, thrown}
use macrohelp.Runtime.Text.{Text, bytes}
use macrohelp.Hub.Host.{Host, Document, Scheduled, accepted, refused, broken}
use macrohelp.Hub.Segment.{
  Cursor, Work, Course, onward, compiled, turned_down, thrown_out, fault, out_of_fuel,
  compile_segment, document_of, prepare, work_left,
}

pub data Phase : Type 0 where
  idle running finished failed stopped : Phase

pub record Poll : Type 0 where
  pub generation : ℕ
  pub task : ℤ

-- What the daemon says of a task, or why it says nothing.
pub data Report : Type 0 where
  is_finished : Report
  is_failed : Text → Report
  is_stopped : Text → Report
  is_pending : Report
  poll_error : Text → Report

pub record Machine (G : Type 0) : Type 0 where
  pub cursor : Cursor
  pub active : Bool
  pub task : ℤ
  pub state : Phase
  pub error : Text
  pub generation : ℕ
  pub poll : Option Poll
  pub last_task : ℤ
  -- The tasks that `ControlRetainTask` was given, the latest first.
  pub retained : List ℤ
  pub env : G

-- `++g_registryDispatchGeneration`.
unfoldable pub next_generation : ℕ → ℕ
next_generation n = (n + 1) % 18446744073709551616

abbrev pub is_empty : Text → Bool
is_empty [] = true
is_empty (c ∷ cs) = false

module _ {G : Type 0} where
  unfoldable pub finish : Text → Machine G → Machine G
  finish error m = record m {
    active = false;
    task = pos 0;
    error = error;
    state = if is_empty error then finished else failed;
  }

  -- A prepared cursor takes the place of the last dispatch.
  abbrev pub begin : Cursor → Machine G → Machine G
  begin c m = record m {
    generation = next_generation m.generation;
    cursor = c;
    active = true;
    task = pos 0;
    state = idle;
    error = [];
  }

  unfoldable pub cancel : Machine G → Machine G
  unfolding next_generation
  cancel m =
      if m.active
      then record m {
        retained = m.task ∷ m.retained;
        generation = next_generation m.generation;
        active = false;
        task = pos 0;
        state = stopped;
      }
      else m

  -- The task that a submission has made, or the last one where the reply names none.
  unfoldable pub submitted : Option ℤ → Machine G → Machine G
  submitted (some n) m = record m { last_task = n; task = n; state = running }
  submitted none m = record m { task = m.last_task; state = running }

  abbrev pub is_pollable : Machine G → Bool
  is_pollable m = m.active && not (eqb_ℤ m.task (pos 0))

  abbrev pub is_due : Machine G → Bool
  is_due m = m.active && eqb_ℤ m.task (pos 0)

  -- The exception's handler; a cancellation comes before it.
  unfoldable pub broken_off : Bool → Text → Machine G → Machine G
  unfolding finish cancel
  broken_off stop message m = if stop then cancel m else finish message m

  abbrev pub next_index : Machine G → Machine G
  next_index m = record m { cursor = record m.cursor { index = m.cursor.index + 1 } }

-- How a submission ends: with a machine and its verdict, or as no submission should.
pub data Outcome (G : Type 0) : Type 0 where
  settled : Bool → Machine G → Outcome G
  faulted : Outcome G
  exhausted : Outcome G

module _ {G A : Type 0} where
  -- The cursor and the state that a segment leaves.
  abbrev pub after_segment : Work G A → Machine G → Machine G
  after_segment w m = record m { cursor = w.cursor; env = w.env }

module _ {G A : Type 0} (h : Host G A) where
  unfoldable pub answered : Scheduled → Machine G → (Machine G → Outcome G) → Outcome G
  unfolding finish submitted
  answered (accepted n) m k = k (submitted n m)
  answered (refused message) m k = settled false (finish message m)
  answered (broken message) m k = settled false (finish message m)

  -- After a segment without a fault.
  unfoldable pub pass_on : Work G A → Machine G → (Machine G → Outcome G) → Outcome G
  unfolding answered finish document_of
  pass_on w m k = elim (document_of true w) [
    | none ↦ elim w.cursor.tokens [
      | [] ↦ settled true (finish [] (after_segment w m))
      | t ∷ ts ↦ k (next_index (after_segment w m))
    ]
    | some d ↦
        let (g, r) = h.schedule d w.env in answered r (record (after_segment w m) { env = g }) k
  ]

  unfoldable pub treat : Course G A → Machine G → (Machine G → Outcome G) → Outcome G
  unfolding pass_on finish broken_off
  treat (compiled w) m k = pass_on w m k
  treat (turned_down w message) m k = settled false (finish message (after_segment w m))
  treat (thrown_out w message stop) m k =
      settled false (broken_off stop message (after_segment w m))
  treat (onward w) m k = exhausted
  treat fault m k = faulted
  treat out_of_fuel m k = exhausted

  unfoldable pub submit_rounds : ℕ → Machine G → Outcome G
  unfolding treat compile_segment
  submit_rounds zero m = exhausted
  submit_rounds (suc n) m = elim (is_due m) [
    | false ↦ settled true m
    | true ↦ treat (compile_segment h true m.cursor m.env) m (λ m1. submit_rounds n m1)
  ]

  unfoldable pub submit : Machine G → Outcome G
  unfolding submit_rounds work_left
  submit m = submit_rounds (2 * work_left m.cursor + 3) m

  unfoldable pub start_script : Text → Bool → Machine G → Outcome G
  unfolding submit prepare next_generation
  start_script script reading m =
      if m.active || reading then settled false m else elim (prepare script) [
        | thrown status message ↦ settled false m
        | done c ↦ submit (begin c m)
      ]

  abbrev pub poll_again : Bool → Machine G → Outcome G
  poll_again due m = settled true (
      if is_pollable m && due
      then record m { poll = some (record { generation = m.generation; task = m.task }) }
      else m)

  -- A reply to the poll of the current task.
  unfoldable pub reported : Report → Bool → Machine G → Outcome G
  unfolding finish submit
  reported (poll_error message) due m = settled true (record m { error = message })
  reported is_finished due m =
      let m1 : Machine G = record m { error = []; task = pos 0 } in
      elim m1.cursor.tokens [ [] ↦ settled true (finish [] m1) | t ∷ ts ↦ submit (next_index m1) ]
  reported (is_failed message) due m =
      settled true (finish (bytes "failed: " ++ message) (record m { error = [] }))
  reported (is_stopped message) due m =
      settled true (finish (bytes "stopped: " ++ message) (record m { error = [] }))
  reported is_pending due m = poll_again due (record m { error = [] })

  abbrev pub is_stale : Poll → Machine G → Bool
  is_stale p m = not m.active || (not (p.generation == m.generation) || not (eqb_ℤ p.task m.task))

  unfoldable pub tick : Option Report → Bool → Machine G → Outcome G
  unfolding reported
  tick ready due m = elim m.poll [
    | none ↦ poll_again due m
    | some p ↦ elim ready [
      | none ↦ settled true m
      | some r ↦
          if is_stale p m
          then settled true (record m { poll = none })
          else reported r due (record m { poll = none })
    ]
  ]
