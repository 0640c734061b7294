-- ===== src/Daemon/Server/State.antt =====
-- The state of `HttpServer` with the engine behind it, requests and responses, `checkAuth`,
-- `sendResponse`, `start`, `stop` and the in-memory stores.
use Prim.Native.String.{◌++◌ as ◌<>◌}
use text.Mathlib.Text.{◌==◌ as str_eq}
use macrohelp.Base.{
  ℤ, String, Option, none, some, Bool, false, ◌&&◌, ◌||◌, not, List, [], ◌∷◌, ◌++◌, if◌then◌else◌,
}
use macrohelp.Base.Dict.{Dict}
use macrohelp.Daemon.Platform.{Platform}
use macrohelp.Daemon.Responses.{
  ApiResponse, unauthorized, forbidden, error_response, status_number, to_json_bytes,
}
use macrohelp.Daemon.Runner.{Engine}

-- A parameter that the query lacks is the empty text.
pub record Request : Type 0 where
  pub http_method : String
  pub path : String
  pub param_value : String → String
  pub header : String → Option String
  pub body : String

pub record Response : Type 0 where
  pub status : ℤ
  pub content : String

pub record Server (F : Type 0) : Type 0 where
  pub engine : Engine
  pub files : F
  pub tasks_dir : String
  pub api_key : String
  pub host : String
  pub port : ℤ
  pub default_delay : ℤ
  pub is_running : Bool
  pub entrypoints : Dict String String
  pub grid_cells : Dict String String
  pub temp_task_files : Dict ℤ String
  pub received : List (String × String × String)

-- The signal `requestReceived`.
abbrev pub receive : {F : Type 0} → String → String → String → Server F → Server F
receive m path details s = record s { received = s.received ++ ((m, path, details) ∷ []) }

-- What a handler returns, with the state that it leaves.
abbrev pub Outcome : Type 0 → Type 0
Outcome F = Server F × Response

module _ {F : Type 0} (p : Platform F) where
  unfoldable pub send_response : ApiResponse → Response
  send_response api = record { status = status_number api.status; content = to_json_bytes p api }

  -- The refusal of a request, or `none` if it may pass.
  unfoldable pub check_auth : Request → Server F → Option Response
  unfolding send_response
  check_auth req s = if str_eq s.api_key "" then none else elim (req.header "X-Tasket-Key") [
    | none ↦ some (send_response (error_response unauthorized "Missing X-Tasket-Key header"))
    | some key ↦
        if str_eq key s.api_key
        then none
        else some (send_response (error_response forbidden "Invalid API key"))
  ]

  -- Every handler begins with the check.
  unfoldable pub guarded : Request → Server F → Outcome F → Outcome F
  guarded req s rest = elim (check_auth req s) [ some refusal ↦ (s, refusal) | none ↦ rest ]

  unfoldable pub listen_address : Server F → String
  listen_address s = "http://" <> (s.host <> (":" <> p.show_int s.port))

-- The outcome of `start`: false where the server already runs, where browser access lacks a key or
-- a loopback address, or where the port cannot be bound.
module _ {F : Type 0} (p : Platform F) (cors can_bind : Bool) where
  unfoldable pub start : String → ℤ → String → String → Server F → Server F × Bool
  start host port dir key s =
      let s1 : Server F = record s { host = host; port = port; tasks_dir = dir; api_key = key } in
      if s.is_running
      then (s, false)
      else if cors && str_eq key ""
      then (s1, false)
      else if cors
          && not (str_eq host "127.0.0.1" || (str_eq host "localhost" || str_eq host "::1"))
      then (s1, false)
      else (let made =
            (if p.dir_exists s1.files dir
              then s1.files
              else elim (p.make_dir s1.files dir) [ none ↦ s1.files | some f ↦ f ]) in
          (record s1 { files = made; is_running = can_bind }, can_bind))

unfoldable pub stop : {F : Type 0} → Server F → Server F
stop s = record s { is_running = false }
