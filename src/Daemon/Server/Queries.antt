-- ===== src/Daemon/Server/Queries.antt =====
-- `handleRoot`, `handleHealth`, `handleListTasks`, `handleCheck`, `handleStatus` and `handleStop`.
use Prim.Native.String.{◌++◌ as ◌<>◌}
use text.Mathlib.Text.{◌==◌ as str_eq}
use macrohelp.Base.{
  ℤ, pos, String, none, some, false, not, List, [], ◌∷◌, length, map, select, if◌then◌else◌,
}
use macrohelp.Base.Json.{Json, obj, str, num, bool, arr, fields_of, items_of}
use macrohelp.Daemon.Platform.{Platform}
use macrohelp.Daemon.Types.{TaskInstance, TaskState, scheduled, running, state_eq}
use macrohelp.Daemon.Registry.{get_task, all_tasks, stop_task, stop_all, is_terminal}
use macrohelp.Daemon.Runner.{stop_all_tasks, stop_task_thread}
use macrohelp.Daemon.Responses.{
  bad_request, not_found, ok_response, error_response, task_check, task_json,
}
use macrohelp.Daemon.Server.State.{
  Request, Server, Outcome, send_response, guarded, receive, listen_address,
}
use macrohelp.Daemon.Server.Files.{
  scan_task_names, resolve_task_path, read_task_delay, read_task_description,
  cleanup_temp_task_file, cleanup_all_temp_task_files,
}

-- `buildToolInventory`: name, description, endpoint, method and example of each tool.
pub record ToolDescriptor : Type 0 where
  pub name : String
  pub description : String
  pub endpoint : String
  pub http_method : String
  pub example : String

abbrev tool : String → String → String → String → String → ToolDescriptor
tool n d e m x = record { name = n; description = d; endpoint = e; http_method = m; example = x }

unfoldable pub tool_json : ToolDescriptor → Json
tool_json t = obj (
    fields_of (
      ("name", str t.name)
      ∷ ("description", str t.description)
      ∷ ("endpoint", str t.endpoint)
      ∷ ("method", str t.http_method)
      ∷ ("example", str t.example)
      ∷ []))

pub build_tool_inventory : List ToolDescriptor
build_tool_inventory =
    tool "Run Task (GET)" "Schedule a saved .scht macro to run after its configured delay."
      "/run?task=<name>&delay=<sec>&loop=<n>" "GET" "/run?task=HelloWorld&delay=10&loop=1"
    ∷ tool "Run Task (POST)" "Schedule a macro via JSON body for richer parameter control." "/run"
        "POST" "{ \"task\": \"HelloWorld\", \"delay\": 10, \"loop\": 1 }"
    ∷ tool "Create Temp Task"
        "Write a temporary Tasket++ .scht JSON document and optionally schedule it immediately."
        "/temp-task" "POST"
        "{ \"name\": \"circlemovetemp\", \"run\": true, \"delay\": 1, \"task\": { \"docType\": \"ScheduleTask File\", \"actions\": [] } }"
    ∷ tool "Check Task"
        "Query a specific task by its assigned number to see state and remaining time."
        "/check?id=<number>" "GET" "/check?id=1"
    ∷ tool "Check Task Alias" "Compatibility alias for /check?id=<number>." "/task?id=<number>"
        "GET" "/task?id=1"
    ∷ tool "List Tasks"
        "Browse all available .scht macros in the tasks directory with their default delays."
        "/tasks" "GET" "/tasks"
    ∷ tool "Daemon Status" "Full breakdown of scheduled, running, and finished tasks." "/status"
        "GET" "/status"
    ∷ tool "Stop Task" "Stop a specific running or scheduled task by number." "/stop?id=<number>"
        "POST" "/stop?id=1"
    ∷ tool "Stop All" "Immediately stop every active task and clear scheduled timers." "/stop"
        "POST" "/stop"
    ∷ tool "Set Entrypoint" "Write a value to an entrypoint variable (string/bool/float)."
        "/entrypoint" "POST" "{ \"id\": \"ep1\", \"value\": \"hello\", \"type\": \"string\" }"
    ∷ tool "List Entrypoints" "Get all current entrypoint values." "/entrypoints" "GET"
        "/entrypoints"
    ∷ tool "Set Grid Cell" "Write a value to a data grid cell." "/grid" "POST"
        "{ \"id\": \"grid-0\", \"value\": \"42\" }"
    ∷ tool "List Grid" "Get all current grid cell values." "/grid" "GET" "/grid"
    ∷ tool "Health Check" "Lightweight ping to verify the daemon is alive." "/health" "GET"
        "/health"
    ∷ []

pub endpoints : List String
endpoints =
    "/" ∷ "/health" ∷ "/tasks" ∷ "/run?task=<name>&delay=<sec>" ∷ "POST /run" ∷ "POST /temp-task"
    ∷ "/check?id=<number>" ∷ "/task?id=<number>" ∷ "/status" ∷ "POST /stop?id=<number>" ∷ []

-- The sizes of arrays and maps are never negative.
abbrev count : {A : Type 0} → List A → Json
count xs = num (pos (length xs))

module _ {F : Type 0} (p : Platform F) where
  abbrev answer : String → List (String × Json) → Server F → Outcome F
  answer msg fs s = (s, send_response p (record (ok_response msg) { content = fields_of fs }))

  unfoldable pub handle_root : String → Request → Server F → Outcome F
  handle_root version req s = guarded p req s (
      answer "Tasket++ HTTP Trigger Daemon"
        (("name", str "Tasket++ HTTP Trigger")
          ∷ ("version", str version)
          ∷ ("daemon", str "tasket-httpd")
          ∷ ("listen_address", str (listen_address p s))
          ∷ ("tasks_directory", str s.tasks_dir)
          ∷ ("auth_enabled", bool (not (str_eq s.api_key "")))
          ∷ ("default_delay_seconds", num s.default_delay)
          ∷ ("tools", arr (items_of (map tool_json build_tool_inventory)))
          ∷ ("endpoints", arr (items_of (map str endpoints)))
          ∷ [])
        s)

  unfoldable pub handle_health : Request → Server F → Outcome F
  handle_health req s = guarded p req s (
      answer "Healthy"
        (("status", str (if s.is_running then "ok" else "down"))
          ∷ ("address", str (listen_address p s))
          ∷ ("tasks_dir", str s.tasks_dir)
          ∷ ("task_count", count (scan_task_names p s))
          ∷ [])
        s)

  listed_task : Server F → String → Json
  listed_task s name =
      let path = resolve_task_path p name s in
      obj (
        fields_of (
          ("name", str name)
          ∷ ("delay_seconds", num (read_task_delay p path s.default_delay s.files))
          ∷ ("description", str (read_task_description p path s.files))
          ∷ []))

  unfoldable pub handle_list_tasks : Request → Server F → Outcome F
  unfolding listed_task
  handle_list_tasks req s =
      let names = scan_task_names p s in
      guarded p req s (
        answer ("Found " <> (p.show_int (pos (length names)) <> " task(s)"))
          (("tasks", arr (items_of (map (listed_task s) names))) ∷ ("count", count names) ∷ []) s)

  unfoldable pub handle_check : Request → ℤ → Server F → Outcome F
  handle_check req now s =
      let n = p.to_int (req.param_value "id") in
      guarded p req s (
        if str_eq (req.param_value "id") ""
        then (
          s,
          send_response p
              (error_response bad_request "Missing 'id' query parameter. Example: /check?id=1"),
        )
        else elim (get_task n s.engine.registry) [
          | none ↦ (
            s,
            send_response p (error_response not_found ("Task #" <> (p.show_int n <> " not found"))),
          )
          | some ti ↦ (
            receive "GET" "/check" ("task #" <> p.show_int n) s,
            send_response p (task_check p ti now),
          )
        ])

  unfoldable pub in_state : TaskState → List TaskInstance → List TaskInstance
  in_state state = select (λ t. state_eq t.state state)

  unfoldable pub ended : List TaskInstance → List TaskInstance
  ended = select (λ t. is_terminal t.state)

  unfoldable pub handle_status : Request → ℤ → Server F → Outcome F
  unfolding in_state ended
  handle_status req now s =
      let all = all_tasks s.engine.registry in
      let view =
        λ (ts : List TaskInstance). arr (items_of (map (λ t. obj (task_json p false t now)) ts)) in
      guarded p req s (
        answer "Daemon status"
          (("scheduled", view (in_state scheduled all))
            ∷ ("running", view (in_state running all))
            ∷ ("finished", view (ended all))
            ∷ ("scheduled_count", count (in_state scheduled all))
            ∷ ("running_count", count (in_state running all))
            ∷ ("finished_count", count (ended all))
            ∷ ("total_count", count all)
            ∷ [])
          s)

  -- What a stop of everything, and of one task, does to the state.
  unfoldable pub stop_everything : ℤ → Server F → Server F
  stop_everything now s =
      let e = stop_all_tasks now s.engine in
      cleanup_all_temp_task_files p
        (record s { engine = record e { registry = stop_all now e.registry } })

  unfoldable pub stop_one : ℤ → ℤ → Server F → Server F
  stop_one n now s =
      let e = stop_task_thread n now s.engine in
      cleanup_temp_task_file p n
        (record s { engine = record e { registry = stop_task n now e.registry } })

  unfoldable pub handle_stop : Request → ℤ → Server F → Outcome F
  unfolding stop_everything stop_one
  handle_stop req now s =
      let n = p.to_int (req.param_value "id") in
      guarded p req s (
        if str_eq (req.param_value "id") ""
        then (
          receive "POST" "/stop" "all" (stop_everything now s),
          send_response p (ok_response "All active tasks stopped"),
        )
        else elim (get_task n s.engine.registry) [
          | none ↦ (
            s,
            send_response p (error_response not_found ("Task #" <> (p.show_int n <> " not found"))),
          )
          | some ti ↦ (
            receive "POST" "/stop" ("task #" <> p.show_int n) (stop_one n now s),
            send_response p (
                ok_response
                  ("Task #" <> (p.show_int n <> (" '" <> (ti.task_name <> "' stopped"))))),
          )
        ])
