-- ===== src/Daemon/Server/Access.antt =====
-- Who is served: the API key, and requests that only read.
use text.Mathlib.Text.{◌==◌ as str_eq}
use text.Mathlib.TextEquality.{eq_iff}
use macrohelp.Base.{
  ℤ, pos, String, none, some, Bool, true, false, ◌≡◌, ◌⊎◌, inl, inr, refl, arith, Option-cases,
  Bool-cases,
}
use macrohelp.Daemon.Platform.{Platform}
use macrohelp.Daemon.Responses.{status_number}
use macrohelp.Daemon.Server.State.{
  Request, Response, Server, Outcome, guarded, check_auth, send_response,
}
use macrohelp.Daemon.Server.Queries.{
  handle_root, handle_health, handle_list_tasks, handle_check, handle_status, handle_stop,
}
use macrohelp.Daemon.Server.Scheduling.{handle_run_get, handle_run_post, handle_temp_task_post}
use macrohelp.Daemon.Server.Values.{
  handle_set_entrypoint, handle_list_entrypoints, handle_set_grid, handle_list_grid,
}
use macrohelp.Daemon.Server.Routes.{
  Route, root, health, tasks, run_get, run_post, temp_task, check, status, stop, set_entrypoint,
  list_entrypoints, set_grid, list_grid, options, unknown, route_of, serve, respond,
}

-- A request with the server's key, or to a server without one.
abbrev pub HasKey : {F : Type 0} → Request → Server F → Type 0
HasKey req s = (s.api_key ≡ "") ⊎ (req.header "X-Tasket-Key" ≡ some s.api_key)

-- The routes with a handler of their own.
abbrev pub is_handled : Route → Bool
is_handled options = false
is_handled unknown = false
is_handled _ = true

-- The routes that only read.
abbrev pub is_query : Route → Bool
is_query root = true
is_query health = true
is_query tasks = true
is_query check = true
is_query status = true
is_query list_entrypoints = true
is_query list_grid = true
is_query options = true
is_query unknown = true
is_query _ = false

module _ {F : Type 0} (p : Platform F) where
  pub check_auth-none : (req : Request) (s : Server F) → HasKey req s → check_auth p req s ≡ none
  unfolding check_auth
  check_auth-none req s (inl e) = ground (arith, eq_iff s.api_key "")
  check_auth-none req s (inr e) = ground (arith, eq_iff s.api_key "", eq_iff s.api_key s.api_key)

  check_auth-some :
      (req : Request) (s : Server F)
      → ¬ HasKey req s
      → (refusal : Response) × (check_auth p req s ≡ some refusal)
        × ((refusal.status ≡ pos 401) ⊎ (refusal.status ≡ pos 403))
  unfolding check_auth send_response status_number
  check_auth-some req s h = elim (Bool-cases (str_eq s.api_key "")) [
    | inl open_server ↦ absurd (h (inl ((eq_iff s.api_key "").0 open_server)))
    | inr closed ↦ elim (Option-cases (req.header "X-Tasket-Key")) [
      | inl missing ↦ rw closed (rw missing (_, refl, inl refl))
      | inr (key, given) ↦ elim (Bool-cases (str_eq key s.api_key)) [
        | inl same ↦ absurd (h (inr (ground (arith, eq_iff key s.api_key))))
        | inr other ↦ rw closed (rw given (rw other (_, refl, inr refl)))
      ]
    ]
  ]

  pub guarded-some :
      (req : Request) (s : Server F) (refusal : Response) (rest : Outcome F)
      → check_auth p req s ≡ some refusal
      → guarded p req s rest ≡ (s, refusal)
  unfolding guarded
  guarded-some req s refusal rest e = λ i. elim (e i) [ some r ↦ (s, r) | none ↦ rest ]

  pub guarded-none :
      (req : Request) (s : Server F) (rest : Outcome F)
      → check_auth p req s ≡ none
      → guarded p req s rest ≡ rest
  unfolding guarded
  guarded-none req s rest e = λ i. elim (e i) [ some r ↦ (s, r) | none ↦ rest ]

module _ {F : Type 0} (p : Platform F) (version : String) where
  serve_refused :
      (r : Route) (req : Request) (now : ℤ) (s : Server F) (refusal : Response)
      → is_handled r ≡ true
      → check_auth p req s ≡ some refusal
      → serve p version r req now s ≡ (s, refusal)
  unfolding serve handle_root handle_health handle_list_tasks handle_run_get handle_run_post
      handle_temp_task_post handle_check handle_status handle_stop handle_set_entrypoint
      handle_list_entrypoints handle_set_grid handle_list_grid
  serve_refused root req now s refusal h e = guarded-some p req s refusal _ e
  serve_refused health req now s refusal h e = guarded-some p req s refusal _ e
  serve_refused tasks req now s refusal h e = guarded-some p req s refusal _ e
  serve_refused run_get req now s refusal h e = guarded-some p req s refusal _ e
  serve_refused run_post req now s refusal h e = guarded-some p req s refusal _ e
  serve_refused temp_task req now s refusal h e = guarded-some p req s refusal _ e
  serve_refused check req now s refusal h e = guarded-some p req s refusal _ e
  serve_refused status req now s refusal h e = guarded-some p req s refusal _ e
  serve_refused stop req now s refusal h e = guarded-some p req s refusal _ e
  serve_refused set_entrypoint req now s refusal h e = guarded-some p req s refusal _ e
  serve_refused list_entrypoints req now s refusal h e = guarded-some p req s refusal _ e
  serve_refused set_grid req now s refusal h e = guarded-some p req s refusal _ e
  serve_refused list_grid req now s refusal h e = guarded-some p req s refusal _ e
  serve_refused options req now s refusal h e = cc
  serve_refused unknown req now s refusal h e = cc

  pub serve_query :
      (r : Route) (req : Request) (now : ℤ) (s : Server F)
      → is_query r ≡ true
      → let q = (serve p version r req now s).0 in
        (q.engine ≡ s.engine)
        × (q.files ≡ s.files)
        × (q.entrypoints ≡ s.entrypoints)
        × (q.grid_cells ≡ s.grid_cells)
        × (q.temp_task_files ≡ s.temp_task_files)
  unfolding serve guarded handle_root handle_health handle_list_tasks handle_check handle_status
      handle_list_entrypoints handle_list_grid
  serve_query root req now s h = ground arith
  serve_query health req now s h = ground arith
  serve_query tasks req now s h = ground arith
  serve_query run_get req now s h = cc
  serve_query run_post req now s h = cc
  serve_query temp_task req now s h = cc
  serve_query check req now s h = ground arith
  serve_query status req now s h = ground arith
  serve_query stop req now s h = cc
  serve_query set_entrypoint req now s h = cc
  serve_query list_entrypoints req now s h = ground arith
  serve_query set_grid req now s h = cc
  serve_query list_grid req now s h = ground arith
  serve_query options req now s h = (refl, refl, refl, refl, refl)
  serve_query unknown req now s h = (refl, refl, refl, refl, refl)

  -- Without the server's key no request to any handler has an effect, and the answer is 401 or 403.
  pub respond_refused :
      (cors : Bool) (req : Request) (now : ℤ) (s : Server F)
      → ¬ HasKey req s
      → is_handled (route_of cors req.http_method req.path) ≡ true
      → ((respond p version cors req now s).0 ≡ s)
        × (((respond p version cors req now s).1.status ≡ pos 401)
            ⊎ ((respond p version cors req now s).1.status ≡ pos 403))
  unfolding respond
  respond_refused cors req now s h k =
      let (refusal, e, code) = check_auth-some p req s h in
      rw (serve_refused (route_of cors req.http_method req.path) req now s refusal k e) (refl, code)

  -- Requests to the reading endpoints, and to no endpoint, leave the tasks, the files and the
  -- stores as they were.
  pub respond_query :
      (cors : Bool) (req : Request) (now : ℤ) (s : Server F)
      → is_query (route_of cors req.http_method req.path) ≡ true
      → let q = (respond p version cors req now s).0 in
        (q.engine ≡ s.engine)
        × (q.files ≡ s.files)
        × (q.entrypoints ≡ s.entrypoints)
        × (q.grid_cells ≡ s.grid_cells)
        × (q.temp_task_files ≡ s.temp_task_files)
  unfolding respond
  respond_query cors req now s h = serve_query (route_of cors req.http_method req.path) req now s h
