-- ===== src/Daemon/LoaderTests.antt =====
-- The theorems about the loader of task files at a concrete library of actions, which are a class with
-- parameters. A number is the text of as many marks.
use Prim.Native.Char.{code}
use macrohelp.Base.{
  ℕ, zero, suc, ℤ, pos, negsuc, All, String, Option, ◌==◌, if◌then◌else◌, none, some, true, List,
  [], ◌∷◌, map, ◌≡◌, ◌≢◌, refl, ap, ◌++◌, arith,
}
use macrohelp.Base.Json.{
  value, to_string, Json, num, str, arr, obj, Fields, end, field, fits_int, items_of,
}
use macrohelp.Daemon.Platform.{Platform}
use macrohelp.Daemon.Loader.{
  Kind, paste, wait, keys_sequence, system_command, cursor_movements, running_other_task,
  Parameters, ActionKeywords, Tasket,
}
use macrohelp.Daemon.Loader.Write.{type_value, written_parameters, action_to_json}
use macrohelp.Daemon.Loader.RoundTrip.{AreDistinct, Distinct, keys_of}
use macrohelp.Daemon.Loader.Document.{
  disk, load_task_from_file, load_task_from_file-written, IsKnown, execute_task_refused, rebuilt,
}
use macrohelp.Daemon.Types.{failed}
use macrohelp.Daemon.Registry.{get_task, with_state, task_failed}
use macrohelp.Daemon.Runner.{Engine, of_registry, execute_task}
use macrohelp.Daemon.Tests.{first, waiting, task_in_sample}
use macrohelp.Daemon.ServerTests.{platform}

abbrev marks : ℕ → String
marks zero = ""
marks (suc n) = String.◌∷◌ "i" (marks n)

abbrev size : String → ℕ
size String.[] = 0
size (String.◌∷◌ c s) = suc (size s)

abbrev show : ℤ → String
show (pos n) = String.◌∷◌ "p" (marks n)
show (negsuc n) = String.◌∷◌ "n" (marks n)

abbrev read_number : String → ℤ
read_number String.[] = pos 0
read_number (String.◌∷◌ c s) = if code c == b'p' then pos (size s) else negsuc (size s)

size-marks : (n : ℕ) → size (marks n) ≡ n
size-marks zero = refl
size-marks (suc n) = ap suc (size-marks n)

read-show : (n : ℤ) → fits_int n ≡ true → read_number (show n) ≡ n
read-show (pos n) h = ap pos (size-marks n)
read-show (negsuc n) h = ap negsuc (size-marks n)

abbrev words : ActionKeywords
words = record {
  action_type = "type";
  paste_value = "paste";
  wait_value = "wait";
  keys_value = "keys";
  system_value = "system";
  cursor_value = "cursor";
  other_value = "task";
  content = "content";
  content_id = "id";
  paste_loop = "loop";
  duration = "duration";
  keys_map = "map";
  keys_id = "id";
  keys_loop = "loop";
  command_type = "command";
  command_param1 = "param1";
  command_param2 = "param2";
  movs_map = "map";
  movs_id = "id";
  movs_loop = "loop";
  movs_keys = "keys";
  other_filename = "file";
  other_delay = "delay";
  other_loops = "loop";
}

abbrev no_parameters : Parameters ℤ
no_parameters = record {
  paste_content = "";
  data_id = "";
  times_to_run = pos 1;
  wait_duration = pos 0;
  keys_seq_map = [];
  sys_cmd_type = "";
  sys_cmd_param1 = "";
  sys_cmd_param2 = "";
  movements = [];
  optional_keys = [];
  task_name = "";
  delay = pos 0;
}

abbrev Action : Type 0
Action = Kind × Parameters ℤ

abbrev number_of : Option Json → ℤ
number_of (some (num n)) = n
number_of (some _) = pos 0
number_of none = pos 0

abbrev tasket : Tasket Action ℤ
tasket = record {
  words = words;
  type_of = λ a. some a.0;
  is_a = λ k a. true;
  make = λ k. (k, no_parameters);
  set_parameters = λ q a. (a.0, q);
  optional_processes = λ a. a;
  generate_parameters = λ a. a.1;
  reference = λ a. 7;
  new_parameters = no_parameters;
  duration_of = number_of;
  double_of = num;
  text_of = λ j. "";
}

abbrev actions : List Action
actions =
    (
      keys_sequence,
      record no_parameters {
        keys_seq_map = (negsuc 0, (pos 5, "A" ∷ "B" ∷ [])) ∷ (pos 300, (pos 0, [])) ∷ [];
        data_id = "k";
        times_to_run = pos 2;
      },
    )
    ∷ (wait, record no_parameters { wait_duration = pos 90 })
    ∷ (
      cursor_movements,
      record no_parameters {
        movements = (pos 1 ∷ negsuc 1 ∷ pos 3 ∷ pos 4 ∷ []) ∷ [];
        optional_keys = "C" ∷ [];
      },
    )
    ∷ []

abbrev document : Fields
document =
    field "actions"
      (arr (
        items_of
          (map (λ a. obj (action_to_json (record platform { show_int = show }) tasket a)) actions)))
      (field "docType" (str "ScheduleTask File") end)

abbrev disk_platform : Platform Unit
disk_platform = record platform {
  show_int = show;
  to_int = read_number;
  read = λ f path. some path;
  parse_json = λ s. some (obj document);
}

words_AreDistinct : AreDistinct disk_platform tasket
words_AreDistinct = (facts, λ k. keys_facts k)
  where
    facts : Distinct (
        map (type_value disk_platform tasket) (
          paste ∷ wait ∷ keys_sequence ∷ system_command ∷ cursor_movements ∷ running_other_task
          ∷ []))
    facts = ground arith

    keys_facts :
        (k : Kind)
        → Distinct ("type" ∷ keys_of (written_parameters disk_platform tasket k no_parameters))
    keys_facts paste = ground arith
    keys_facts wait = ground arith
    keys_facts keys_sequence = ground arith
    keys_facts system_command = ground arith
    keys_facts cursor_movements = ground arith
    keys_facts running_other_task = ground arith

actions-IsKnown : All (IsKnown disk_platform tasket) actions
actions-IsKnown = (
  (keys_sequence, refl, refl, (refl, (omega arith, (tt, tt)), ((refl, refl, (refl, refl, tt))))),
  (
    (wait, refl, refl, refl),
    ((cursor_movements, refl, refl, (refl, (refl, (refl, (refl, (refl, (refl, tt)))), tt))), tt),
  ),
)

load_task_from_file-written_example :
    load_task_from_file disk_platform tasket tt "/a"
    ≡ ("", some (map (rebuilt disk_platform tasket) actions))
unfolding to_string value action_to_json
load_task_from_file-written_example =
    load_task_from_file-written disk_platform tasket read-show words_AreDistinct tt "/a" "/a"
      document actions refl refl refl refl actions-IsKnown

abbrev after : Engine
unfolding execute_task
after = execute_task (disk platform tasket tt) (pos 1) "/a" (pos 1) (pos 5000) waiting

execute_task_refused_example :
    (◌≢◌ {A = String} "Cannot open file: /a" "")
    × (get_task (pos 1) after.registry
        ≡ some (with_state failed "Cannot open file: /a" (pos 5000) first))
    × (after.emitted
        ≡ []
          ++ (of_registry (
                task_failed
                  (pos 1)
                  first.task_name
                  (with_state failed "Cannot open file: /a" (pos 5000) first).error_message)
              ∷ []))
    × (after.executors ≡ [])
unfolding load_task_from_file execute_task
execute_task_refused_example =
    execute_task_refused platform tasket tt (pos 1) "/a" (pos 1) (pos 5000) first waiting refl refl
      task_in_sample
