-- ===== src/Daemon/Server/Routes.antt =====
-- `setupRoutes`: which handler serves a method and a path. The HTTP library gives HEAD to the handlers
-- of GET, and then sends the headers of the response alone. A request that no route serves gets the
-- error handler's 404, and with browser access on, OPTIONS of any path gets 204.
use text.Mathlib.Text.{◌==◌ as str_eq}
use macrohelp.Base.{ℤ, pos, String, Bool, false, ◌&&◌, ◌||◌, [], ◌∷◌, if◌then◌else◌}
use macrohelp.Base.Json.{bool, str, obj, fields_of}
use macrohelp.Daemon.Platform.{Platform}
use macrohelp.Daemon.Server.State.{Request, Response, Server, Outcome}
use macrohelp.Daemon.Server.Scheduling.{handle_run_get, handle_run_post, handle_temp_task_post}
use macrohelp.Daemon.Server.Queries.{
  handle_root, handle_health, handle_list_tasks, handle_check, handle_status, handle_stop,
}
use macrohelp.Daemon.Server.Values.{
  handle_set_entrypoint, handle_list_entrypoints, handle_set_grid, handle_list_grid,
}

pub data Route : Type 0 where
  root health tasks run_get run_post temp_task check status stop : Route
  set_entrypoint list_entrypoints set_grid list_grid : Route
  options unknown : Route

abbrev get_route : String → Route
get_route path =
    if str_eq path "/"
    then root
    else if str_eq path "/health"
    then health
    else if str_eq path "/tasks"
    then tasks
    else if str_eq path "/run"
    then run_get
    else if str_eq path "/check" || str_eq path "/task"
    then check
    else if str_eq path "/status"
    then status
    else if str_eq path "/entrypoints"
    then list_entrypoints
    else if str_eq path "/grid"
    then list_grid
    else unknown

abbrev post_route : String → Route
post_route path =
    if str_eq path "/run"
    then run_post
    else if str_eq path "/temp-task"
    then temp_task
    else if str_eq path "/stop"
    then stop
    else if str_eq path "/entrypoint"
    then set_entrypoint
    else if str_eq path "/grid"
    then set_grid
    else unknown

-- The routes of a server whose MACROHELP_CORS is `cors`.
unfoldable pub route_of : Bool → String → String → Route
route_of cors m path =
    if str_eq m "GET" || str_eq m "HEAD"
    then get_route path
    else if str_eq m "POST"
    then post_route path
    else if str_eq m "OPTIONS" && cors
    then options
    else unknown

module _ {F : Type 0} (p : Platform F) (version : String) where
  unfoldable pub not_found_response : String → Response
  not_found_response path = record {
    status = pos 404;
    content = p.print_json (
        obj (
          fields_of
            (("success", bool false) ∷ ("message", str "Not Found") ∷ ("path", str path) ∷ [])));
  }

  unfoldable pub serve : Route → Request → ℤ → Server F → Outcome F
  serve root req now s = handle_root p version req s
  serve health req now s = handle_health p req s
  serve tasks req now s = handle_list_tasks p req s
  serve run_get req now s = handle_run_get p req now s
  serve run_post req now s = handle_run_post p req now s
  serve temp_task req now s = handle_temp_task_post p req now s
  serve check req now s = handle_check p req now s
  serve status req now s = handle_status p req now s
  serve stop req now s = handle_stop p req now s
  serve set_entrypoint req now s = handle_set_entrypoint p req s
  serve list_entrypoints req now s = handle_list_entrypoints p req s
  serve set_grid req now s = handle_set_grid p req s
  serve list_grid req now s = handle_list_grid p req s
  serve options req now s = (s, record { status = pos 204; content = "" })
  serve unknown req now s = (s, not_found_response req.path)

  unfoldable pub respond : Bool → Request → ℤ → Server F → Outcome F
  unfolding serve
  respond cors req = serve (route_of cors req.http_method req.path) req
