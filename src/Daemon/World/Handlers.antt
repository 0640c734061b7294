-- ===== src/Daemon/World/Handlers.antt =====
-- The handlers keep the engine in order.
use text.Mathlib.Text.{◌==◌ as str_eq}
use macrohelp.Base.{
  ℤ, String, some, true, false, ◌⊎◌, ◌≡◌, refl, sym, subst, arith, Option-cases, Bool-cases, inl,
  inr,
}
use macrohelp.Base.Dict.{int_key}
use macrohelp.Base.Json.{Json, Fields, value, obj, contains, object_of, to_bool, to_string}
use macrohelp.Daemon.Platform.{Platform}
use macrohelp.Daemon.Registry.{get_task}
use macrohelp.Daemon.Runner.Soundness.{IsSound}
use macrohelp.Daemon.Server.State.{Request, Server, Outcome, check_auth, guarded}
use macrohelp.Daemon.Server.Files.{
  resolve_task_path, Written, written, not_written, write_task_file, cleanup_temp_task_file,
  cleanup_all_temp_task_files, remember_temp_task_file,
}
use macrohelp.Daemon.Server.TempName.{safe_temp_task_name}
use macrohelp.Daemon.Server.Scheduling.{
  unresolved, run_now, run_named, schedule, handle_run_get, handle_run_post, handle_temp_task_post,
  temp_named, temp_written, temp_error,
}
use macrohelp.Daemon.Server.Queries.{handle_stop, stop_one, stop_everything}
use macrohelp.Daemon.Server.Values.{
  handle_set_entrypoint, handle_set_grid, set_entrypoint, set_grid,
}
use macrohelp.Daemon.Server.Routes.{
  Route, root, health, tasks, run_get, run_post, temp_task, check, status, stop,
  set_entrypoint as put_entrypoint, list_entrypoints, set_grid as put_grid, list_grid, options,
  unknown, serve,
}
use macrohelp.Daemon.Server.Access.{guarded-some, guarded-none, serve_query}
use macrohelp.Daemon.World.Good.{
  Good, HasRoom, Good-refl, Good-schedule, Good-stop_one, Good-stop_everything,
}

pub cleanup_temp_task_file-engine :
    {F : Type 0} (p : Platform F) (n : ℤ) (s : Server F)
    → (cleanup_temp_task_file p n s).engine ≡ s.engine
unfolding cleanup_temp_task_file
cleanup_temp_task_file-engine p n s = ground arith

module _ {F : Type 0} (p : Platform F) where
  Written-cases :
      (w : Written p)
      → ((f : F) × (e : String) × (w ≡ not_written f e))
        ⊎ ((f : F) × (path : String) × (w ≡ written f path))
  Written-cases (not_written f e) = inl (f, e, refl)
  Written-cases (written f path) = inr (f, path, refl)

module _ {F : Type 0} (p : Platform F) (s : Server F) (v : IsSound s.engine)
    (room : HasRoom s.engine) where
  same : Good s.engine s.engine
  same = Good-refl s.engine v room

  run_now-Good :
      (m name path : String) (delay loops now : ℤ)
      → Good s.engine (run_now p m name path delay loops now s).0.engine
  unfolding run_now schedule
  run_now-Good m name path delay loops now =
      Good-schedule s.engine v room name path delay loops _ now

  guarded-Good :
      (req : Request) (rest : Outcome F)
      → Good s.engine rest.0.engine
      → Good s.engine (guarded p req s rest).0.engine
  guarded-Good req rest g = elim (Option-cases (check_auth p req s)) [
    | inl e ↦ subst (λ o. Good s.engine o.0.engine) (sym (guarded-none p req s rest e)) g
    | inr (r, e) ↦ subst (λ o. Good s.engine o.0.engine) (sym (guarded-some p req s r rest e)) same
  ]

  handle_run_get-Good :
      (req : Request) (now : ℤ) → Good s.engine (handle_run_get p req now s).0.engine
  unfolding handle_run_get
  handle_run_get-Good req now =
      let path = resolve_task_path p (req.param_value "task") s in
      guarded-Good req _ (elim (Bool-cases (str_eq (req.param_value "task") "")) [
        | inl nameless ↦ rw nameless same
        | inr named ↦ rw named (elim (Bool-cases (unresolved p path s)) [
          | inl missing ↦ rw missing same
          | inr found ↦ rw found (run_now-Good "GET" (req.param_value "task") path _ _ now)
        ])
      ])

  run_named-Good : (fs : Fields) (now : ℤ) → Good s.engine (run_named p fs now s).0.engine
  unfolding run_named
  run_named-Good fs now =
      let path = resolve_task_path p (to_string (value "task" fs)) s in
      elim (Bool-cases (str_eq (to_string (value "task" fs)) "")) [
        | inl nameless ↦ rw (nameless, run_named) same
        | inr named ↦
            rw (named, run_named)
              (elim (Bool-cases (unresolved p path s)) [
                | inl missing ↦ rw missing same
                | inr found ↦ rw found (run_now-Good "POST" _ path _ _ now)
              ])
      ]

  handle_run_post-Good :
      (req : Request) (now : ℤ) → Good s.engine (handle_run_post p req now s).0.engine
  unfolding handle_run_post
  handle_run_post-Good req now = guarded-Good req _ (elim (Option-cases (p.parse_json req.body)) [
    | inl bad ↦ rw bad same
    | inr (doc, good) ↦ rw good (elim (Bool-cases (contains "task" (object_of doc))) [
      | inl asks ↦ rw asks (run_named-Good (object_of doc) now)
      | inr empty ↦ rw empty same
    ])
  ])

  temp_written-Good :
      (fs : Fields) (name path : String) (now : ℤ)
      → Good s.engine (temp_written p fs name path now s).0.engine
  unfolding temp_written schedule remember_temp_task_file
  temp_written-Good fs name path now =
      let g = Good-schedule s.engine v room name path in
      elim (Bool-cases (to_bool true (value "run" fs))) [
        | inl runs ↦
            rw (runs, temp_written)
              (elim (Bool-cases (to_bool false (value "cleanup" fs))) [
                | inl once ↦ rw once (g _ _ _ now)
                | inr kept ↦ rw kept (g _ _ _ now)
              ])
        | inr waits ↦
            rw (waits, temp_written)
              (elim (Bool-cases (to_bool false (value "cleanup" fs))) [
                | inl once ↦ rw once same
                | inr kept ↦ rw kept same
              ])
      ]

  set_entrypoint-Good : (fs : Fields) → Good s.engine (set_entrypoint p fs s).0.engine
  unfolding set_entrypoint
  set_entrypoint-Good fs = elim (Bool-cases (str_eq (to_string (value "id" fs)) "")) [
    | inl e ↦ rw (e, set_entrypoint) same
    | inr e ↦ rw (e, set_entrypoint) same
  ]

  set_grid-Good : (fs : Fields) → Good s.engine (set_grid p fs s).0.engine
  unfolding set_grid
  set_grid-Good fs = elim (Bool-cases (str_eq (to_string (value "id" fs)) "")) [
    | inl e ↦ rw (e, set_grid) same
    | inr e ↦ rw (e, set_grid) same
  ]

  handle_set_entrypoint-Good :
      (req : Request) → Good s.engine (handle_set_entrypoint p req s).0.engine
  unfolding handle_set_entrypoint
  handle_set_entrypoint-Good req = guarded-Good req _ (elim (Option-cases (p.parse_json req.body)) [
    | inl bad ↦ rw bad same
    | inr (doc, good) ↦ rw good (elim (Bool-cases (contains "id" (object_of doc))) [
      | inl named ↦ rw named (set_entrypoint-Good (object_of doc))
      | inr empty ↦ rw empty same
    ])
  ])

  handle_set_grid-Good : (req : Request) → Good s.engine (handle_set_grid p req s).0.engine
  unfolding handle_set_grid
  handle_set_grid-Good req = guarded-Good req _ (elim (Option-cases (p.parse_json req.body)) [
    | inl bad ↦ rw bad same
    | inr (doc, good) ↦ rw good (elim (Bool-cases (contains "id" (object_of doc))) [
      | inl named ↦ rw named (set_grid-Good (object_of doc))
      | inr empty ↦ rw empty same
    ])
  ])

  stop_one-Good : (n now : ℤ) → Good s.engine (stop_one p n now s).engine
  unfolding stop_one
  stop_one-Good n now =
      subst (λ q. Good s.engine q) (sym (cleanup_temp_task_file-engine p n _))
        (Good-stop_one s.engine v room n now)

  stop_everything-Good : (now : ℤ) → Good s.engine (stop_everything p now s).engine
  unfolding stop_everything cleanup_all_temp_task_files
  stop_everything-Good now = Good-stop_everything s.engine v room now

  handle_stop-Good : (req : Request) (now : ℤ) → Good s.engine (handle_stop p req now s).0.engine
  unfolding handle_stop
  handle_stop-Good req now =
      guarded-Good req _ (elim (Bool-cases (str_eq (req.param_value "id") "")) [
        | inl all ↦ rw all (stop_everything-Good now)
        | inr one ↦
            rw one
              (elim (Option-cases (get_task (p.to_int (req.param_value "id")) s.engine.registry)) [
                | inl none_such ↦ rw none_such same
                | inr (ti, found) ↦ rw found (stop_one-Good _ now)
              ])
      ])

module _ {F : Type 0} (p : Platform F) (s : Server F) (v : IsSound s.engine)
    (room : HasRoom s.engine) where
  temp_named-Good : (fs : Fields) (now : ℤ) → Good s.engine (temp_named p fs now s).0.engine
  unfolding temp_named
  temp_named-Good fs now =
      let name = safe_temp_task_name p (to_string (value "name" fs)) in
      elim (Option-cases (temp_error p (value "task" fs) name)) [
        | inr (m, e) ↦ rw (e, temp_named) (same p s v room)
        | inl fine ↦
            rw (fine, temp_named)
              (elim (Option-cases (value "task" fs)) [
                | inl e ↦ rw e (same p s v room)
                | inr (task, e) ↦ rw e (elim (Written-cases p (write_task_file p name task s)) [
                  | inl (f, m, w) ↦ rw w (same p s v room)
                  | inr (f, path, w) ↦
                      rw w (temp_written-Good p (record s { files = f }) v room fs name path now)
                ])
              ])
      ]

  document-Good :
      (req : Request) (doc : Json) (now : ℤ)
      → p.parse_json req.body ≡ some doc
      → Good s.engine (handle_temp_task_post p req now s).0.engine
  unfolding handle_temp_task_post
  document-Good req (obj fs) now e = guarded-Good p s v room req _ (rw e (temp_named-Good fs now))
  document-Good req other now e = guarded-Good p s v room req _ (rw e (same p s v room))

  handle_temp_task_post-Good :
      (req : Request) (now : ℤ) → Good s.engine (handle_temp_task_post p req now s).0.engine
  unfolding handle_temp_task_post
  handle_temp_task_post-Good req now = elim (Option-cases (p.parse_json req.body)) [
    | inl bad ↦ guarded-Good p s v room req _ (rw bad (same p s v room))
    | inr (doc, good) ↦ document-Good req doc now good
  ]

  -- A route that only reads, or one that writes: no handler breaks the engine.
  pub serve-Good :
      (version : String) (r : Route) (req : Request) (now : ℤ)
      → Good s.engine (serve p version r req now s).0.engine
  unfolding serve
  serve-Good version run_get req now = handle_run_get-Good p s v room req now
  serve-Good version run_post req now = handle_run_post-Good p s v room req now
  serve-Good version temp_task req now = handle_temp_task_post-Good req now
  serve-Good version stop req now = handle_stop-Good p s v room req now
  serve-Good version put_entrypoint req now = handle_set_entrypoint-Good p s v room req
  serve-Good version put_grid req now = handle_set_grid-Good p s v room req
  serve-Good version root req now =
      subst (λ q. Good s.engine q) (sym (serve_query p version root req now s refl).0)
        (same p s v room)
  serve-Good version health req now =
      subst (λ q. Good s.engine q) (sym (serve_query p version health req now s refl).0)
        (same p s v room)
  serve-Good version tasks req now =
      subst (λ q. Good s.engine q) (sym (serve_query p version tasks req now s refl).0)
        (same p s v room)
  serve-Good version check req now =
      subst (λ q. Good s.engine q) (sym (serve_query p version check req now s refl).0)
        (same p s v room)
  serve-Good version status req now =
      subst (λ q. Good s.engine q) (sym (serve_query p version status req now s refl).0)
        (same p s v room)
  serve-Good version list_entrypoints req now =
      subst (λ q. Good s.engine q) (sym (serve_query p version list_entrypoints req now s refl).0)
        (same p s v room)
  serve-Good version list_grid req now =
      subst (λ q. Good s.engine q) (sym (serve_query p version list_grid req now s refl).0)
        (same p s v room)
  serve-Good version options req now =
      subst (λ q. Good s.engine q) (sym (serve_query p version options req now s refl).0)
        (same p s v room)
  serve-Good version unknown req now =
      subst (λ q. Good s.engine q) (sym (serve_query p version unknown req now s refl).0)
        (same p s v room)
