-- ===== src/Hub/Host.antt =====
-- What the Registry Hub's compiler calls: the evaluation of conditions (Conditions has a model of
-- it), the compilation of a single token and the expansion of references, in
-- runtime/source/src/main.cpp, and the `rgd` process that reads an include. Their global state is a
-- parameter, and so is the type of an action's JSON text.
use macrohelp.Base.{ℕ, ℤ, Option, Bool, List}
use macrohelp.Runtime.Text.{Text}

-- A call that gives a value, returns false with a status text, or throws.
pub data Reply {ℓ} (B : Type ℓ) : Type ℓ where
  answer : B → Reply B
  rejected : Text → Reply B
  raised : Text → Reply B

-- `g_registryRgdReader`: the text, an error, or `CancelRegistryDispatch` while it pumps messages.
pub data Reading : Type 0 where
  read : Text → Reading
  unreadable : Text → Reading
  cancelled : Reading

-- A task's document: the sequence numbers in its title, if it has them, the actions and the delay.
pub record Document {ℓ} (A : Type ℓ) : Type ℓ where
  pub split : Bool
  pub index : ℕ
  pub total : ℕ
  pub actions : List A
  pub delay : ℕ

-- `ScheduleTasketTempTask`: accepted, with the task number when the reply has one.
pub data Scheduled : Type 0 where
  accepted : Option ℤ → Scheduled
  refused : Text → Scheduled
  broken : Text → Scheduled

pub record Host (G A : Type 0) : Type 0 where
  pub evaluate : Text → G → G × Reply Bool
  -- The actions so far and the focus-click flag, which the call may change.
  pub compile_token : Text → List A → Bool → G → G × Reply (List A × Bool)
  pub expand : G → Text → Text
  -- `TrimWide(g_registryFilePath)`.
  pub file_path : G → Text
  pub read_rgd : Text → Text → G → G × Reading
  pub schedule : Document A → G → G × Scheduled
