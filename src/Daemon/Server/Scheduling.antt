-- ===== src/Daemon/Server/Scheduling.antt =====
-- `handleRunGet`, `handleRunPost` and `handleTempTaskPost`: the handlers that schedule a task.
use Prim.Native.String.{◌++◌ as ◌<>◌}
use text.Mathlib.Text.{◌==◌ as str_eq}
use macrohelp.Base.{
  ℤ, pos, negsuc, ltb_ℤ, String, Option, none, some, Bool, true, false, ◌&&◌, ◌||◌, not, [], ◌∷◌,
  if◌then◌else◌,
}
use macrohelp.Base.Json.{
  Json, Fields, obj, str, bool, fields_of, object_of, value, contains, to_string, to_int, to_bool,
  is_object, is_array, is_string,
}
use macrohelp.Daemon.Platform.{Platform}
use macrohelp.Daemon.Types.{TaskInstance}
use macrohelp.Daemon.Registry.{schedule_task}
use macrohelp.Daemon.Responses.{
  ApiResponse, bad_request, not_found, internal_error, ok_response, error_response, task_scheduled,
  task_json,
}
use macrohelp.Daemon.Server.State.{Request, Server, Outcome, send_response, guarded, receive}
use macrohelp.Daemon.Server.TempName.{safe_temp_task_name}
use macrohelp.Daemon.Server.Files.{
  resolve_task_path, write_task_file, not_written, written, remember_temp_task_file,
  read_task_delay, read_task_description,
}

module _ {F : Type 0} (p : Platform F) where
  abbrev pub failing : ApiResponse → Server F → Outcome F
  failing api s = (s, send_response p api)

  -- `m_registry->scheduleTask` on the engine.
  unfoldable pub schedule :
      String → String → ℤ → ℤ → String → ℤ → Server F → TaskInstance × Server F
  schedule name path delay loops description now s =
      let (ti, r) = schedule_task name path delay loops description now s.engine.registry in
      (ti, record s { engine = record (s.engine) { registry = r } })

  -- A scheduled run: the signal, and the answer with the new task.
  unfoldable pub run_now : String → String → String → ℤ → ℤ → ℤ → Server F → Outcome F
  unfolding schedule
  run_now http_method name path delay loops now s =
      let (ti, s1) = schedule name path delay loops (read_task_description p path s.files) now s in
      (
        receive http_method "/run"
            (name
              <> (" (#"
                  <> (p.show_int ti.task_number <> (", delay=" <> (p.show_int delay <> "s)")))))
            s1,
        send_response p (task_scheduled p ti now),
      )

  abbrev pub unresolved : String → Server F → Bool
  unresolved path s = str_eq path "" || not (p.exists s.files path)

  -- A text that is given wins over the file's own delay, which wins over the default.
  unfoldable pub query_delay : String → String → Server F → ℤ
  query_delay param path s =
      if str_eq param "" then read_task_delay p path s.default_delay s.files else p.to_int param

  unfoldable pub query_loops : String → ℤ
  query_loops param =
      let lower = p.to_lower param in
      if str_eq param ""
      then pos 1
      else if str_eq lower "inf" || str_eq lower "infinite"
      then negsuc 0
      else p.to_int param

  unfoldable pub handle_run_get : Request → ℤ → Server F → Outcome F
  unfolding run_now query_delay query_loops
  handle_run_get req now s =
      let name = req.param_value "task" in
      let path = resolve_task_path p name s in
      guarded p req s (
        if str_eq name ""
        then failing
            (error_response bad_request
              "Missing 'task' query parameter. Example: /run?task=HelloWorld&delay=10")
            s
        else if unresolved path s
        then failing
            (error_response not_found ("Task '" <> (name <> ("' not found in " <> s.tasks_dir)))) s
        else run_now "GET" name path (query_delay (req.param_value "delay") path s)
            (query_loops (req.param_value "loop")) now s)

  -- The value `loop` of a body: the text "infinite" in any case, or a number.
  unfoldable pub body_loops : Option Json → ℤ
  body_loops v =
      if is_string v && str_eq (p.to_lower (to_string v)) "infinite"
      then negsuc 0
      else to_int (pos 1) v

  unfoldable pub body_delay : Fields → String → Server F → ℤ
  body_delay fs path s =
      if contains "delay" fs
      then to_int s.default_delay (value "delay" fs)
      else read_task_delay p path s.default_delay s.files

  -- The fields of a JSON body; a body that is no JSON, or no object, has none.
  abbrev body_fields : Request → Option Fields
  body_fields req = elim (p.parse_json req.body) [ none ↦ none | some doc ↦ some (object_of doc) ]

  unfoldable pub run_named : Fields → ℤ → Server F → Outcome F
  unfolding run_now body_loops body_delay
  run_named fs now s =
      let name = to_string (value "task" fs) in
      let path = resolve_task_path p name s in
      if str_eq name ""
      then failing (error_response bad_request "'task' field cannot be empty") s
      else if unresolved path s
      then failing (error_response not_found ("Task '" <> (name <> "' not found"))) s
      else run_now "POST" name path (body_delay fs path s) (body_loops (value "loop" fs)) now s

  abbrev missing_task : ApiResponse
  missing_task =
      error_response bad_request
        "Invalid JSON body: missing 'task' field. Example: { \"task\": \"HelloWorld\", \"delay\": 10 }"

  unfoldable pub handle_run_post : Request → ℤ → Server F → Outcome F
  unfolding run_named
  handle_run_post req now s = guarded p req s (elim (body_fields req) [
    | none ↦ failing missing_task s
    | some fs ↦ if contains "task" fs then run_named fs now s else failing missing_task s
  ])

  -- The part of `handleTempTaskPost` after the file is written.
  unfoldable pub temp_written : Fields → String → String → ℤ → Server F → Outcome F
  unfolding schedule body_loops
  temp_written fs name path now s =
      let asked = to_int (read_task_delay p path s.default_delay s.files) (value "delay" fs) in
      let delay = (if ltb_ℤ asked (pos 0) then pos 0 else asked) in
      let cleanup = to_bool false (value "cleanup" fs) in
      let (ti, s1) =
        schedule name path delay (body_loops (value "loop" fs))
          (read_task_description p path s.files) now s in
      if to_bool true (value "run" fs)
      then (
        receive "POST" "/temp-task"
            (name
              <> (" (#"
                  <> (p.show_int ti.task_number <> (", delay=" <> (p.show_int delay <> "s)")))))
            (if cleanup then remember_temp_task_file p ti.task_number path s1 else s1),
        send_response p
            (record (ok_response (
              "Temporary task '"
              <> (name <> ("' scheduled to run in " <> (p.show_int delay <> "s : success"))))) {
                content = fields_of (
                    ("name", str name)
                    ∷ ("path", str path)
                    ∷ ("created", bool true)
                    ∷ ("scheduled", bool true)
                    ∷ ("task", obj (task_json p false ti now))
                    ∷ ("cleanup", bool cleanup)
                    ∷ []);
              }),
      )
      else (
        receive "POST" "/temp-task" (name <> " (write only)")
            (if cleanup then record s { files = p.remove s.files path } else s),
        send_response p (record (ok_response ("Temporary task '" <> (name <> "' written"))) {
          content = fields_of (
              ("name", str name)
              ∷ ("path", str path)
              ∷ ("created", bool true)
              ∷ ("scheduled", bool false)
              ∷ (if cleanup then (("cleanup", bool true) ∷ []) else []));
        }),
      )

  -- What is wrong with the body of a temporary task, in the order of the checks.
  unfoldable pub temp_error : Option Json → String → Option String
  temp_error task name =
      if str_eq name ""
      then some "'name' must contain letters, numbers, spaces, dash, or underscore"
      else elim task [
        | none ↦ some "Missing 'task' object containing a Tasket++ .scht document"
        | some doc ↦
            if not (is_object (some doc))
            then some "Missing 'task' object containing a Tasket++ .scht document"
            else if not (
                str_eq (to_string (value p.keywords.identification (object_of doc)))
                  p.keywords.identification_value)
            then some "Task object is not a valid Tasket++ .scht document"
            else if not (is_array (value p.keywords.actions_array (object_of doc)))
            then some "Task object must contain an actions array"
            else none
      ]

  unfoldable pub temp_named : Fields → ℤ → Server F → Outcome F
  unfolding temp_written temp_error
  temp_named fs now s =
      let name = safe_temp_task_name p (to_string (value "name" fs)) in
      elim (temp_error (value "task" fs) name) [
        | some message ↦ failing (error_response bad_request message) s
        | none ↦ elim (value "task" fs) [
          | none ↦
              failing
                (error_response bad_request
                  "Missing 'task' object containing a Tasket++ .scht document")
                s
          | some task ↦ elim (write_task_file p name task s) [
            | not_written files error ↦
                failing (error_response internal_error error) (record s { files = files })
            | written files path ↦ temp_written fs name path now (record s { files = files })
          ]
        ]
      ]

  unfoldable pub handle_temp_task_post : Request → ℤ → Server F → Outcome F
  unfolding temp_named
  handle_temp_task_post req now s = guarded p req s (elim (p.parse_json req.body) [
    | some (obj fs) ↦ temp_named fs now s
    | _ ↦ failing (error_response bad_request ("Invalid JSON body: " <> p.parse_error req.body)) s
  ])
