-- ===== src/Daemon/Server/Effects.antt =====
-- What GET and HEAD /run do.
use text.Mathlib.Text.{◌==◌ as str_eq}
use text.Mathlib.TextEquality.{eq_iff}
use macrohelp.Base.{
  ℤ, pos, negsuc, eqb_ℤ, String, none, some, Bool, true, false, ◌≡◌, ◌≢◌, ◌⊎◌, inl, inr, refl, sym,
  subst, arith, if◌then◌else◌, Bool-cases,
}
use macrohelp.Daemon.Platform.{Platform}
use macrohelp.Daemon.Responses.{status_number, task_scheduled}
use macrohelp.Daemon.Types.{TaskInstance, scheduled}
use macrohelp.Daemon.Registry.{new_task, schedule_task, get_task, interval_of}
use macrohelp.Daemon.Registry.Invariant.{Inv}
use macrohelp.Daemon.Registry.Lifecycle.{timer_of, get_task-schedule_task}
use macrohelp.Daemon.Server.State.{Request, Server, Outcome, send_response}
use macrohelp.Daemon.Server.Files.{resolve_task_path, read_task_delay, read_task_description}
use macrohelp.Daemon.Server.Scheduling.{
  run_now, schedule, handle_run_get, query_delay, query_loops, unresolved,
}
use macrohelp.Daemon.Server.Routes.{run_get, route_of, serve, respond}
use macrohelp.Daemon.Server.Access.{HasKey, check_auth-none, guarded-none}

abbrev pub ReadsOnly : Request → Type 0
ReadsOnly req = (req.http_method ≡ "GET") ⊎ (req.http_method ≡ "HEAD")

module _ {F : Type 0} (p : Platform F) where
  -- A number of seconds: of the query, and without one of the task's file.
  pub record IsDelay (req : Request) (path : String) (s : Server F) (delay : ℤ) : Type 0 where
    pub delay_given : req.param_value "delay" ≢ "" → delay ≡ p.to_int (req.param_value "delay")
    pub delay_of_file :
        req.param_value "delay" ≡ "" → delay ≡ read_task_delay p path s.default_delay s.files

  -- A loop count: once without one in the query, for ever by its words, else its number.
  pub record IsLoops (req : Request) (loops : ℤ) : Type 0 where
    pub once : req.param_value "loop" ≡ "" → loops ≡ pos 1
    pub endless :
        req.param_value "loop" ≢ ""
        → (p.to_lower (req.param_value "loop") ≡ "inf")
          ⊎ (p.to_lower (req.param_value "loop") ≡ "infinite")
        → loops ≡ negsuc 0
    pub counted :
        req.param_value "loop" ≢ ""
        → p.to_lower (req.param_value "loop") ≢ "inf"
        → p.to_lower (req.param_value "loop") ≢ "infinite"
        → loops ≡ p.to_int (req.param_value "loop")

  -- The path of a file that is there, and one of none.
  abbrev pub IsFound : String → Server F → Type 0
  IsFound path s = (path ≢ "") × (p.exists s.files path ≡ true)

  abbrev pub IsMissing : String → Server F → Type 0
  IsMissing path s = (path ≡ "") ⊎ (p.exists s.files path ≡ false)

  -- The one new task of a request, and what else is as it was.
  pub record IsScheduled (req : Request) (now : ℤ) (s q : Server F) (ti : TaskInstance)
      : Type 0 where
    pub fresh : get_task ti.task_number s.engine.registry ≡ none
    pub tasks :
        (k : ℤ)
        → get_task k q.engine.registry
          ≡ (if eqb_ℤ ti.task_number k then some ti else get_task k s.engine.registry)
    pub timer :
        timer_of ti.task_number q.engine.registry
        ≡ some (record { interval = interval_of ti.delay_seconds; number = ti.task_number })
    pub waiting : ti.state ≡ scheduled
    pub name : ti.task_name ≡ req.param_value "task"
    pub path : ti.task_path ≡ resolve_task_path p (req.param_value "task") s
    pub delay : IsDelay req (resolve_task_path p (req.param_value "task") s) s ti.delay_seconds
    pub loops : IsLoops req ti.loop_times
    pub created : ti.created_at ≡ now
    pub executors : q.engine.executors ≡ s.engine.executors
    pub files : q.files ≡ s.files
    pub entrypoints : q.entrypoints ≡ s.entrypoints
    pub grid_cells : q.grid_cells ≡ s.grid_cells
    pub temp_task_files : q.temp_task_files ≡ s.temp_task_files

  -- No name, no file, or a new task.
  abbrev pub IsRunAnswer : Request → ℤ → Server F → Outcome F → Type 0
  IsRunAnswer req now s (q, answer) =
      let path = resolve_task_path p (req.param_value "task") s in
      ((req.param_value "task" ≡ "") × (q ≡ s) × (answer.status ≡ pos 400))
      ⊎ (((req.param_value "task" ≢ "") × IsMissing path s × (q ≡ s) × (answer.status ≡ pos 404))
          ⊎ ((req.param_value "task" ≢ "")
              × IsFound path s
              × (answer.status ≡ pos 200)
              × (ti : TaskInstance) × IsScheduled req now s q ti))

  query_delay-IsDelay :
      (req : Request) (path : String) (s : Server F)
      → IsDelay req path s (query_delay p (req.param_value "delay") path s)
  unfolding query_delay
  query_delay-IsDelay req path s = record {
    delay_given = λ h. ground (arith, h, eq_iff (req.param_value "delay") "");
    delay_of_file = λ h. ground (arith, h, eq_iff (req.param_value "delay") "");
  }

  query_loops-IsLoops : (req : Request) → IsLoops req (query_loops p (req.param_value "loop"))
  unfolding query_loops
  query_loops-IsLoops req =
      let w = p.to_lower (req.param_value "loop") in
      let blank = eq_iff (req.param_value "loop") "" in
      let short = eq_iff w "inf" in
      let long = eq_iff w "infinite" in
      record {
        once = λ h. ground (arith, h, blank);
        endless = λ h e. ground (arith, h, e, blank, short, long);
        counted = λ h e g. ground (arith, h, e, g, blank, short, long);
      }

  run_now-IsScheduled :
      (req : Request) (now : ℤ) (s : Server F)
      → Inv s.engine.registry
      → let name = req.param_value "task" in
        let path = resolve_task_path p name s in
        let o =
          run_now p "GET" name path
            (query_delay p (req.param_value "delay") path s)
            (query_loops p (req.param_value "loop"))
            now
            s in
        (o.1.status ≡ pos 200) × (ti : TaskInstance) × IsScheduled req now s o.0 ti
  unfolding run_now schedule send_response status_number task_scheduled schedule_task new_task
  run_now-IsScheduled req now s v =
      let name = req.param_value "task" in
      let path = resolve_task_path p name s in
      let delay = query_delay p (req.param_value "delay") path s in
      let loops = query_loops p (req.param_value "loop") in
      let text = read_task_description p path s.files in
      let r = s.engine.registry in
      let effect = λ (k : ℤ). get_task-schedule_task r name path delay loops text now k v in
      (
        refl,
        new_task r.next_task_number name path delay loops text now,
        record {
          fresh = (effect (pos 0)).0;
          tasks = λ k. (effect k).1;
          timer = (effect (pos 0)).2;
          waiting = refl;
          name = refl;
          path = refl;
          delay = query_delay-IsDelay req path s;
          loops = query_loops-IsLoops req;
          created = refl;
          executors = refl;
          files = refl;
          entrypoints = refl;
          grid_cells = refl;
          temp_task_files = refl;
        },
      )

  path_cases :
      (path : String) (s : Server F)
      → ((unresolved p path s ≡ true) × IsMissing path s)
        ⊎ ((unresolved p path s ≡ false) × IsFound path s)
  path_cases path s = elim (Bool-cases (str_eq path "")) [
    | inl blank ↦ inl (rw blank refl, inl ((eq_iff path "").0 blank))
    | inr full ↦
        let named : path ≢ "" = ground (arith, full, eq_iff path "") in
        elim (Bool-cases (p.exists s.files path)) [
          | inl there ↦ inr (rw full (rw there refl), (named, there))
          | inr gone ↦ inl (rw full (rw gone refl), inr gone)
        ]
  ]

  handle_run_get-IsRunAnswer :
      (req : Request) (now : ℤ) (s : Server F)
      → Inv s.engine.registry
      → HasKey req s
      → IsRunAnswer req now s (handle_run_get p req now s)
  unfolding handle_run_get
  handle_run_get-IsRunAnswer req now s v key =
      let path = resolve_task_path p (req.param_value "task") s in
      rw (guarded-none p req s _ (check_auth-none p req s key))
        (elim (Bool-cases (str_eq (req.param_value "task") "")) [
          | inl blank ↦ rw blank (
              inl (
                (eq_iff (req.param_value "task") "").0 blank,
                refl,
                unfold send_response status_number in refl,
              ))
          | inr full ↦
              let named : req.param_value "task" ≢ "" =
                ground (arith, full, eq_iff (req.param_value "task") "") in
              rw full (elim (path_cases path s) [
                | inl (u, missing) ↦
                    rw u
                      (inr (inl (named, missing, refl, unfold send_response status_number in refl)))
                | inr (u, found) ↦ rw u (
                    let (code, ti, done) = run_now-IsScheduled req now s v in
                    inr (inr (named, found, code, ti, done)))
              ])
        ])

run_route :
    (cors : Bool) (m path : String)
    → (m ≡ "GET") ⊎ (m ≡ "HEAD")
    → path ≡ "/run"
    → route_of cors m path ≡ run_get
unfolding route_of
run_route cors m path (inl e) q = rw (e, q) refl
run_route cors m path (inr e) q = rw (e, q) refl

module _ {F : Type 0} (p : Platform F) (version : String) where
  -- GET or HEAD /run with the key, for a registry that is well-formed: with no name the answer is 400 and
  -- nothing changes; with a name that leads to no file it is 404 and nothing changes; otherwise it is 200
  -- and there is one new task, waiting under a number that no record had with a timer of its delay, of the
  -- name, the path of the file, the query's delay or else the file's, and the query's loop count, once
  -- without one and for ever for inf and infinite. No other record changes, no executor, file or stored
  -- value.
  pub respond_run :
      (cors : Bool) (req : Request) (now : ℤ) (s : Server F)
      → Inv s.engine.registry
      → HasKey req s
      → ReadsOnly req
      → req.path ≡ "/run"
      → IsRunAnswer p req now s (respond p version cors req now s)
  unfolding respond serve
  respond_run cors req now s v key reads at =
      subst (λ r. IsRunAnswer p req now s (serve p version r req now s))
        (sym (run_route cors req.http_method req.path reads at))
        (handle_run_get-IsRunAnswer p req now s v key)
