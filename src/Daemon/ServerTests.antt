-- ===== src/Daemon/ServerTests.antt =====
-- The theorems about the server and the daemon as a whole at concrete inputs.
use text.Mathlib.Text.{◌==◌ as str_eq}
use macrohelp.Base.{
  pos, ◌≤◌, String, none, some, true, false, [], ◌∷◌, length, All, ◌≡◌, ◌⊎◌, inl, inr, refl, arith,
  if◌then◌else◌,
}
use macrohelp.Base.Dict.{Dict, int_key, string_key, lookup}
use macrohelp.Base.Json.{Fields, end, field, obj, str, value}
use macrohelp.Daemon.Platform.{Platform}
use macrohelp.Daemon.Types.{finished}
use macrohelp.Daemon.Registry.{get_task}
use macrohelp.Daemon.Runner.{loaded}
use macrohelp.Daemon.Runner.Soundness.{IsSound}
use macrohelp.Daemon.Server.State.{Request, Server}
use macrohelp.Daemon.Server.TempName.{safe_name, IsWord, safe_name_lem}
use macrohelp.Daemon.Server.Routes.{respond, route_of}
use macrohelp.Daemon.Server.Access.{HasKey, respond_refused, respond_query}
use macrohelp.Daemon.Server.Effects.{IsRunAnswer, respond_run}
use macrohelp.Daemon.Server.Stores.{IsText, Lists, set-list_entrypoints}
use macrohelp.Daemon.World.{request, timer_fires, signal_arrives, executor_reports, run}
use macrohelp.Daemon.World.Completion.{run-completes}
use macrohelp.Daemon.World.Safety.{run-IsSound}
use macrohelp.Daemon.Tests.{first, first_state, task_in_sample, sample, sample-Inv, sample_next}

-- A platform on which every path is a file that cannot be read, and every text is one document.
abbrev pub fields : Fields
fields = field "id" (str "grid-0") (field "value" (str "42") end)

abbrev pub platform : Platform Unit
platform = record {
  keywords = record {
    identification = "docType";
    identification_value = "ScheduleTask File";
    actions_array = "actions";
    description = "description";
    extension = ".scht";
  };
  show_int = λ n. "";
  iso_date = λ n. "";
  secs_to = λ a b. pos 0;
  to_int = λ t. pos 5;
  to_lower = λ t. t;
  same_ignoring_case = str_eq;
  has_extension = λ t. false;
  chop_extension = λ t. t;
  trimmed = λ t. t;
  simplified = λ t. t;
  codes = λ t. [];
  text = λ cs. "";
  parse_json = λ t. some (obj fields);
  parse_error = λ t. "";
  print_json = λ j. "";
  file_in = λ d n. n;
  directory_of = λ t. t;
  absolute_dir = λ t. t;
  dir_exists = λ f d. true;
  make_dir = λ f d. some f;
  exists = λ f t. true;
  schedules = λ f d. [];
  read = λ f t. none;
  can_write = λ f t. true;
  write = λ f t c. some f;
  remove = λ f t. f;
}

abbrev server : Server Unit
server = record {
  engine = record {
    registry = sample;
    executors = [];
    allocated = 0;
    terminated = [];
    emitted = [];
  };
  files = tt;
  tasks_dir = "/tasks";
  api_key = "secret";
  host = "127.0.0.1";
  port = pos 7718;
  default_delay = pos 10;
  is_running = true;
  entrypoints = [];
  grid_cells = [];
  temp_task_files = [];
  received = [];
}

abbrev keyed : Request
keyed = record {
  http_method = "GET";
  path = "/run";
  param_value = λ name. "a";
  header = λ name. some "secret";
  body = "";
}

-- HEAD goes to the handler of GET.
abbrev keyless : Request
keyless = record keyed { http_method = "HEAD"; header = λ name. none }

no_key : ¬ HasKey keyless server
no_key (inl e) = cc
no_key (inr e) = cc

refused_example :
    ((respond platform "1.0" false keyless (pos 5000) server).0 ≡ server)
    × (((respond platform "1.0" false keyless (pos 5000) server).1.status ≡ pos 401)
        ⊎ ((respond platform "1.0" false keyless (pos 5000) server).1.status ≡ pos 403))
unfolding route_of
refused_example = respond_refused platform "1.0" false keyless (pos 5000) server no_key refl

abbrev asks_health : Request
asks_health = record keyed { path = "/health" }

query_example :
    let q = (respond platform "1.0" false asks_health (pos 5000) server).0 in
    (q.engine ≡ server.engine)
    × (q.files ≡ tt)
    × (q.entrypoints ≡ [])
    × (q.grid_cells ≡ [])
    × (q.temp_task_files ≡ [])
unfolding route_of
query_example = respond_query platform "1.0" false asks_health (pos 5000) server refl

run_get_example :
    IsRunAnswer platform keyed
      (pos 5000)
      server
      (respond platform "1.0" false keyed (pos 5000) server)
run_get_example =
    respond_run platform "1.0" false keyed (pos 5000) server sample-Inv (inr refl) (inl refl) refl

abbrev posts_value : Request
posts_value = record keyed { http_method = "POST"; path = "/entrypoint" }

abbrev asks_values : Request
asks_values = record keyed { path = "/entrypoints" }

set-list_example :
    let (q, first) = respond platform "1.0" false posts_value (pos 5000) server in
    let (after, answer) = respond platform "1.0" false asks_values (pos 6000) q in
    (first.status ≡ pos 200)
    × (answer.status ≡ pos 200)
    × (after.engine ≡ server.engine)
    × (after.files ≡ tt)
    × (after.grid_cells ≡ [])
    × (kept : String) × IsText (value "value" fields) kept
    × (m : Dict String String) × Lists platform m answer.content
    × ((k : String) → lookup k m ≡ (if str_eq "grid-0" k then some kept else lookup k []))
unfolding value
set-list_example =
    set-list_entrypoints platform "1.0" false posts_value asks_values (pos 5000) (pos 6000) server
      fields "grid-0" (inr refl) (inr refl) refl refl refl refl refl refl (λ e. cc)

server-IsSound : IsSound server.engine
server-IsSound = record { records = sample-Inv; handles = record { apart = tt; bounded = tt } }

run_example :
    IsSound
      (run platform
        (λ files path. loaded [])
        "1.0"
        false
        ((request keyed, pos 5000)
          ∷ (timer_fires (pos 1), pos 11000)
          ∷ (signal_arrives, pos 12000)
          ∷ (executor_reports 0, pos 13000)
          ∷ [])
        server).engine
run_example =
    run-IsSound platform (λ files path. loaded []) "1.0" false
      ((request keyed, pos 5000)
        ∷ (timer_fires (pos 1), pos 11000)
        ∷ (signal_arrives, pos 12000)
        ∷ (executor_reports 0, pos 13000)
        ∷ [])
      server server-IsSound (rw sample_next (omega arith)) (rw sample_next (omega arith))

safe_name_example :
    All IsWord (safe_name (λ cs. cs) (b'a' ∷ b'/' ∷ b'.' ∷ []))
    × (length (safe_name (λ cs. cs) (b'a' ∷ b'/' ∷ b'.' ∷ [])) ≤ 80)
safe_name_example = safe_name_lem (λ cs. cs) (b'a' ∷ b'/' ∷ b'.' ∷ []) (λ ds a. a)

completes_example :
    (get_task
        (pos 1)
        (run platform
          (λ files path. loaded [])
          "1.0"
          false
          ((timer_fires (pos 1), pos 11000)
            ∷ (signal_arrives, pos 12000)
            ∷ (executor_reports 0, pos 13000)
            ∷ [])
          server).engine.registry
      ≡ some (record first {
        state = finished;
        started_at = some (pos 11000);
        finished_at = some (pos 13000);
      }))
    × (lookup
          (pos 1)
          (run platform
            (λ files path. loaded [])
            "1.0"
            false
            ((timer_fires (pos 1), pos 11000)
              ∷ (signal_arrives, pos 12000)
              ∷ (executor_reports 0, pos 13000)
              ∷ [])
            server).engine.executors
        ≡ none)
completes_example =
    run-completes platform (λ files path. loaded []) "1.0" false server (pos 1) (pos 11000)
      (pos 12000) (pos 13000) first [] server-IsSound.handles refl refl task_in_sample first_state
      refl refl
