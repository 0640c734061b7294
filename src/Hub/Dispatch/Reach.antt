-- ===== src/Hub/Dispatch/Reach.antt =====
-- The dispatch over time: scripts that are started, ticks and cancellations, in any order.
use macrohelp.Base.{pos, Bool, false, Option, none, [], ◌≡◌, refl, subst}
use macrohelp.Runtime.Text.{Text}
use macrohelp.Hub.Host.{Host}
use macrohelp.Hub.Dispatch.{Machine, Report, settled, cancel, start_script, tick, idle}
use macrohelp.Hub.Dispatch.Order.{IsOrderly, EndsOrderly, GivesNumbers, resting}
use macrohelp.Hub.Dispatch.Submission.{start_script-Ends}
use macrohelp.Hub.Dispatch.Polling.{cancel-IsOrderly, tick-Ends}

-- Before the first script.
abbrev pub at_rest : {G : Type 0} → G → Machine G
at_rest g = record {
  cursor = record {
    tokens = [];
    expanded_bytes = 0;
    branches = [];
    index = 1;
    total = 1;
    leading_wait = false;
    focus_click = false;
  };
  active = false;
  task = pos 0;
  state = idle;
  error = [];
  generation = 0;
  poll = none;
  last_task = pos 0;
  retained = [];
  env = g;
}

-- A call that has returned, or a change of the other state between two calls.
pub data Step {G A : Type 0} (h : Host G A) : Machine G → Machine G → Type 0 where
  starts :
      {m m1 : Machine G} (script : Text) (reading verdict : Bool)
      → start_script h script reading m ≡ settled verdict m1
      → Step h m m1
  ticks :
      {m m1 : Machine G} (ready : Option Report) (due verdict : Bool)
      → tick h ready due m ≡ settled verdict m1
      → Step h m m1
  cancels : (m : Machine G) → Step h m (cancel m)
  elsewhere : (m : Machine G) (g : G) → Step h m (record m { env = g })

pub data Reach {G A : Type 0} (h : Host G A) (m0 : Machine G) : Machine G → Type 0 where
  here : Reach h m0 m0
  next : {m m1 : Machine G} → Reach h m0 m → Step h m m1 → Reach h m0 m1

module _ {G A : Type 0} (h : Host G A) (numbers : GivesNumbers h) where
  Step-IsOrderly : {m m1 : Machine G} → Step h m m1 → IsOrderly m → IsOrderly m1
  Step-IsOrderly (starts script reading verdict e) o =
      subst EndsOrderly e (start_script-Ends h numbers script reading _ o)
  Step-IsOrderly (ticks ready due verdict e) o =
      subst EndsOrderly e (tick-Ends h numbers ready due _ o)
  Step-IsOrderly (cancels m) o = cancel-IsOrderly m o
  Step-IsOrderly (elsewhere m g) o = record { off = o.off; on = o.on }

  reached : {m0 m : Machine G} → Reach h m0 m → IsOrderly m0 → IsOrderly m
  reached here o = o
  reached (next r s) o = Step-IsOrderly s (reached r o)

  -- If an accepted task has a number that is not 0: whatever has been called from rest on, a dispatch
  -- that runs is in state running with a task and a proper cursor whose waits ahead are the sequences
  -- to come, and one that does not run has no task.
  pub Reach-IsOrderly : (g : G) (m : Machine G) → Reach h (at_rest g) m → IsOrderly m
  Reach-IsOrderly g m r = reached r (resting (at_rest g) refl refl)
