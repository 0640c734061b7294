-- ===== src/Daemon/World/Completion.antt =====
-- From the timer of a task to its end, http-daemon/src/main.cpp: the timer fires, the queued request to
-- execute arrives, and the executor reports.
use mathlib.Core.Option.{some-injective}
use macrohelp.Base.{
  ℤ, pos, ℕ, ltb_ℤ, eqb_ℤ, eqb_ℤ_iff, String, Bool, Option, none, some, true, false, List, [], ◌∷◌,
  ◌≡◌, ◌≢◌, refl, ap, subst, ==_iff, ◌∙◌, arith, Bool-cases, inl, inr,
}
use macrohelp.Base.Dict.{Dict, int_key, lookup, lookup-erase, beq_refl}
use macrohelp.Daemon.Types.{TaskInstance, scheduled, running, finished}
use macrohelp.Daemon.Platform.{Platform}
use macrohelp.Daemon.Registry.{execute_requested, get_task, with_state}
use macrohelp.Daemon.Registry.Lifecycle.{on_delay_timer_expired_due}
use macrohelp.Daemon.Runner.{
  Loaded, loaded, Disk, Handle, Engine, of_registry, execute_task, owner, on_task_finished,
}
use macrohelp.Daemon.Runner.Addresses.{Inv, Lacks, Apart, execute_task-Inv}
use macrohelp.Daemon.Runner.Transitions.{execute_task_loaded, on_task_finished_lem}
use macrohelp.Daemon.Server.State.{Server}
use macrohelp.Daemon.World.{
  timer_fires, signal_arrives, executor_reports, run, step, arrive, receive_signal, disk,
}

Lacks-lookup :
    (a : ℕ) (n : ℤ) (hs : Dict ℤ Handle) (h : Handle)
    → Lacks a hs
    → lookup n hs ≡ some h
    → h.address ≢ a
unfolding lookup
Lacks-lookup a n [] h l e = absurd (cc)
Lacks-lookup a n ((k, g) ∷ hs) h (p, l) e = elim (Bool-cases (eqb_ℤ k n)) [
  | inl same ↦ subst (λ (x : Handle). x.address ≢ a) (some-injective g h (rw same at e)) p
  | inr other ↦ Lacks-lookup a n hs h l (rw other at e)
]

-- The owner of an executor's address is its task.
owner-lookup :
    (n : ℤ) (hs : Dict ℤ Handle) (h : Handle)
    → Apart hs
    → lookup n hs ≡ some h
    → owner h.address hs ≡ some n
unfolding owner lookup
owner-lookup n [] h a e = absurd (cc)
owner-lookup n ((k, g) ∷ hs) h (l, a) e = elim (Bool-cases (eqb_ℤ k n)) [
  | inl same ↦
      let there : g.address ≡ h.address =
        ap (λ (x : Handle). x.address) (some-injective g h (rw same at e)) in
      rw ((==_iff g.address h.address).1 there) (ap some ((eqb_ℤ_iff k n).0 same))
  | inr other ↦
      let held : lookup n hs ≡ some h = rw other at e in
      let apart = Lacks-lookup g.address n hs h l held in
      ground (arith, apart, owner-lookup n hs h a held)
]

-- The engine: the request to execute a task whose file loads, and then the report of its executor.
module _ (s : Engine) (v : Inv s) where
  executed_finished :
      (dsk : Disk) (n : ℤ) (loops t t' : ℤ) (ti : TaskInstance) (acts : List (Option ℕ))
      → ltb_ℤ n (pos 0) ≡ false
      → ti.state ≡ running
      → dsk.exists ti.task_path ≡ true
      → dsk.load ti.task_path ≡ loaded acts
      → get_task n s.registry ≡ some ti
      → let q = on_task_finished s.allocated t' (execute_task dsk n ti.task_path loops t s) in
        (get_task n q.registry ≡ some (with_state finished "" t' (with_state running "" t ti)))
        × (lookup n q.executors ≡ none)
  unfolding with_state
  executed_finished dsk n loops t t' ti acts positive r e l f =
      let (got, held, _) = execute_task_loaded s dsk n ti.task_path loops t ti acts e l f in
      let w = execute_task-Inv s v dsk n ti.task_path loops t in
      let own = owner-lookup n _ _ w.apart held in
      let (done, _, gone) =
        on_task_finished_lem (execute_task dsk n ti.task_path loops t s) n t' s.allocated _ own
          positive got in
      (done, ap (lookup n) gone ∙ rw lookup-erase (rw (beq_refl int_key n) refl))

module _ {F : Type 0} (p : Platform F) (load : F → String → Loaded) (version : String)
    (cors : Bool) where
  arrive_request :
      (q : Server F) (n loops now : ℤ) (path : String)
      → q.engine.emitted ≡ of_registry (execute_requested n path loops) ∷ []
      → arrive p load q.engine.emitted now q ≡ record q {
        engine = execute_task (disk p load q) n path loops now (record q.engine { emitted = [] });
      }
  unfolding arrive receive_signal
  arrive_request q n loops now path e = rw (e, arrive) refl

  -- A scheduled task whose file is there and loads, in a daemon with no signal in its queue: when its
  -- timer has fired, the request to execute it has arrived and its executor has reported, it is
  -- finished, with the times of its start and its end, and no executor is held for it.
  pub run-completes :
      (s : Server F) (n t1 t2 t3 : ℤ) (ti : TaskInstance) (acts : List (Option ℕ))
      → Inv s.engine
      → s.engine.emitted ≡ []
      → ltb_ℤ n (pos 0) ≡ false
      → get_task n s.engine.registry ≡ some ti
      → ti.state ≡ scheduled
      → p.exists s.files ti.task_path ≡ true
      → load s.files ti.task_path ≡ loaded acts
      → let q =
          (run p load version cors
            ((timer_fires n, t1)
              ∷ (signal_arrives, t2)
              ∷ (executor_reports s.engine.allocated, t3)
              ∷ [])
            s).engine in
        (get_task n q.registry
          ≡ some (record ti { state = finished; started_at = some t1; finished_at = some t3 }))
        × (lookup n q.executors ≡ none)
  unfolding run step with_state
  run-completes s n t1 t2 t3 ti acts v quiet positive f due e l =
      let (got, _, sent) = on_delay_timer_expired_due s.engine.registry n t1 ti f due in
      let fired : Server F = step p load version cors (timer_fires n) t1 s in
      let queued : fired.engine.emitted
          ≡ of_registry (execute_requested n ti.task_path ti.loop_times) ∷ [] =
        rw (quiet, sent) refl in
      let waiting : Engine = record fired.engine { emitted = [] } in
      let w : Inv waiting = record { apart = v.apart; bounded = v.bounded } in
      rw (arrive_request fired n ti.loop_times t2 ti.task_path queued) (
        executed_finished waiting w (disk p load fired) n ti.loop_times t2 t3
          (record ti { state = running; started_at = some t1 }) acts positive refl e l got)
