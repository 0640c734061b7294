-- ===== src/Daemon/Responses.antt =====
-- http-daemon/include/Types.h: status codes, the JSON view of a task, its status message and the
-- response that every handler sends.
use Prim.Native.String.{◌++◌ as ◌<>◌}
use text.Mathlib.Text.{◌==◌ as str_eq}
use macrohelp.Base.{
  ℤ, pos, pos_part, neg_part, ◌-ℤ◌, ltb_ℤ, ◌/◌, String, Option, none, some, Bool, true, false, List,
  [], ◌∷◌, ◌++◌, if◌then◌else◌, wrap32, sub_ℕ,
}
use macrohelp.Base.Json.{Json, Fields, end, num, bool, str, obj, fields_of, set_field}
use macrohelp.Daemon.Types.{
  idle, scheduled, running, finished, stopped, failed, TaskInstance, state_eq, task_state_to_string,
}
use macrohelp.Daemon.Platform.{Platform}

pub data HttpStatusCode : Type 0 where
  ok created accepted bad_request unauthorized forbidden not_found conflict internal_error :
      HttpStatusCode
  not_implemented service_unavailable : HttpStatusCode

unfoldable pub status_number : HttpStatusCode → ℤ
status_number ok = pos 200
status_number created = pos 201
status_number accepted = pos 202
status_number bad_request = pos 400
status_number unauthorized = pos 401
status_number forbidden = pos 403
status_number not_found = pos 404
status_number conflict = pos 409
status_number internal_error = pos 500
status_number not_implemented = pos 501
status_number service_unavailable = pos 503

pub record ApiResponse : Type 0 where
  pub status : HttpStatusCode
  pub success : Bool
  pub message : String
  pub content : Fields

abbrev pub ok_response : String → ApiResponse
ok_response msg = record { status = ok; success = true; message = msg; content = end }

abbrev pub error_response : HttpStatusCode → String → ApiResponse
error_response code msg = record { status = code; success = false; message = msg; content = end }

-- Division of milliseconds by 1000, towards zero.
abbrev quotient : ℤ → ℤ
quotient n = sub_ℕ (pos_part n / 1000) (neg_part n / 1000)

unfoldable pub remaining_seconds : TaskInstance → ℤ → ℤ
remaining_seconds ti now =
    let ms = ti.scheduled_to_run_at -ℤ now in
    if ltb_ℤ (pos 0) ms then wrap32 (quotient ms) else pos 0

module _ {F : Type 0} (p : Platform F) where
  open p use {show_int, iso_date, secs_to}

  date_or_empty : Option ℤ → String
  date_or_empty none = ""
  date_or_empty (some t) = iso_date t

  base_fields : TaskInstance → List (String × Json)
  base_fields ti =
      ("task_number", num ti.task_number)
      ∷ ("name", str ti.task_name)
      ∷ ("state", str (task_state_to_string ti.state))
      ∷ ("delay_seconds", num ti.delay_seconds)
      ∷ ("loop_times", num ti.loop_times)
      ∷ ("created_at", str (iso_date ti.created_at))
      ∷ ("scheduled_at", str (iso_date ti.scheduled_to_run_at))
      ∷ []

  verbose_fields : TaskInstance → List (String × Json)
  unfolding date_or_empty
  verbose_fields ti =
      ("started_at", str (date_or_empty ti.started_at))
      ∷ ("finished_at", str (date_or_empty ti.finished_at))
      ∷ ("description", str ti.description)
      ∷ (if str_eq ti.error_message "" then [] else (("error", str ti.error_message) ∷ []))

  unfoldable pub task_json : Bool → TaskInstance → ℤ → Fields
  unfolding base_fields verbose_fields
  task_json verbose ti now = fields_of (
      base_fields ti
      ++ (if state_eq ti.state scheduled
          then ("remaining_seconds", num (remaining_seconds ti now)) ∷ []
          else [])
      ++ (if verbose then verbose_fields ti else []))

  unfoldable pub check_message : TaskInstance → ℤ → String
  check_message ti now = elim ti.state [
    | idle ↦ "'" <> (ti.task_name <> "' is idle")
    | scheduled ↦
        let left = secs_to (some now) ti.scheduled_to_run_at in
        "'"
        <> (ti.task_name
            <> ("' is scheduled to run in ~"
                <> (show_int (if ltb_ℤ left (pos 0) then pos 0 else left) <> "s")))
    | running ↦
        "'"
        <> (ti.task_name
            <> ("' is currently running (elapsed "
                <> (show_int (secs_to ti.started_at now) <> "s)")))
    | finished ↦ "'" <> (ti.task_name <> "' has finished")
    | stopped ↦ "'" <> (ti.task_name <> "' was stopped before completion")
    | failed ↦ "'" <> (ti.task_name <> ("' failed: " <> ti.error_message))
  ]

  unfoldable pub task_scheduled : TaskInstance → ℤ → ApiResponse
  task_scheduled ti now = record {
    status = ok;
    success = true;
    message =
        "'"
        <> (ti.task_name
            <> ("' scheduled to run in " <> (show_int ti.delay_seconds <> "s : success")));
    content = task_json false ti now;
  }

  unfoldable pub task_check : TaskInstance → ℤ → ApiResponse
  task_check ti now = record {
    status = ok;
    success = true;
    message = check_message ti now;
    content = task_json true ti now;
  }

  abbrev with_data : Fields → Fields → Fields
  with_data end root = root
  with_data (Fields.field k v fs) root = set_field "data" (obj (Fields.field k v fs)) root

  -- The JSON text of a response: its data only where there are any.
  unfoldable pub to_json_bytes : ApiResponse → String
  to_json_bytes r = p.print_json (
      obj (
        with_data r.content
          (fields_of (("success", bool r.success) ∷ ("message", str r.message) ∷ []))))
