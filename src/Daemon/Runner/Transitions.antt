-- ===== src/Daemon/Runner/Transitions.antt =====
-- What the runner does to a task, on every path.
use mathlib.Core.List.{map}
use Prim.Native.String.{◌++◌ as ◌<>◌}
use macrohelp.Base.{
  ℤ, pos, ltb_ℤ, ℕ, String, Option, none, some, true, false, List, [], ◌∷◌, ◌++◌, if◌then◌else◌,
  ◌≡◌, refl, ap, append-nil, append_assoc, Bool-cases, inl, inr,
}
use macrohelp.Base.Dict.{int_key, lookup, erase, lookup-insert, lookup-erase, beq_refl}
use macrohelp.Daemon.Types.{TaskInstance, running, finished, stopped, failed, state_eq}
use macrohelp.Daemon.Registry.{
  task_failed, task_finished, get_task, with_state, state_signals, mark_started, mark_finished,
  mark_failed, mark_stopped,
}
use macrohelp.Daemon.Registry.Lifecycle.{update_state_signals}
use macrohelp.Daemon.Runner.{
  Disk, Handle, Engine, of_registry, execution_started, execution_finished, loaded, execute_task,
  launch, loop_mode, stop_handle, stop_task_thread, owner, on_task_finished,
}
use macrohelp.Daemon.Executor.{load_from_task}
use macrohelp.Daemon.Executor
use macrohelp.Daemon.Runner.Addresses.{Inv, erase-Lacks, owner-Lacks}

module _ (s : Engine) where
  -- Once a task's thread is stopped, the task is stopped, the thread was told to end, and a late
  -- report of that executor changes nothing.
  pub stop_task_thread_lem :
      (n now later : ℤ) (h : Handle) (ti : TaskInstance)
      → Inv s
      → lookup n s.executors ≡ some h
      → get_task n s.registry ≡ some ti
      → let q = stop_task_thread n now s in
        (get_task n q.registry ≡ some (record ti { state = stopped; finished_at = some now }))
        × (q.terminated ≡ s.terminated ++ (stop_handle h ∷ []))
        × (lookup n q.executors ≡ none)
        × (on_task_finished h.address later q ≡ q)
  unfolding stop_task_thread mark_stopped on_task_finished with_state
  stop_task_thread_lem n now later h ti v e f =
      let (got, _, _) = update_state_signals s.registry n now stopped "" ti f in
      rw (e, stop_task_thread)
        (
          got,
          refl,
          rw lookup-erase (rw (beq_refl int_key n)),
          rw (owner-Lacks h.address _ (erase-Lacks n s.executors h e v.apart), on_task_finished),
        )

  -- A missing file fails the task, with the path in its error and one signal; no executor is made.
  pub execute_task_missing :
      (disk : Disk) (n : ℤ) (path : String) (loops now : ℤ) (ti : TaskInstance)
      → disk.exists path ≡ false
      → get_task n s.registry ≡ some ti
      → let q = execute_task disk n path loops now s in
        let msg = "Task file not found: " <> path in
        (get_task n q.registry ≡ some (with_state failed msg now ti))
        × (q.emitted
            ≡ s.emitted
              ++ (of_registry
                    (task_failed n ti.task_name (with_state failed msg now ti).error_message)
                  ∷ []))
        × (q.executors ≡ s.executors)
  unfolding execute_task mark_failed state_signals with_state
  execute_task_missing disk n path loops now ti e f =
      let (got, sent, _) =
        update_state_signals s.registry n now failed ("Task file not found: " <> path) ti f in
      rw e (got, ap (λ l. s.emitted ++ map of_registry l) sent, refl)

  -- A file that loads runs: the record says so, and the task's executor holds the actions that are
  -- there and the loop mode of the request.
  pub execute_task_loaded :
      (disk : Disk) (n : ℤ) (path : String) (loops now : ℤ) (ti : TaskInstance)
      (acts : List (Option ℕ))
      → disk.exists path ≡ true
      → disk.load path ≡ loaded acts
      → get_task n s.registry ≡ some ti
      → let q = execute_task disk n path loops now s in
        (get_task n q.registry ≡ some (with_state running "" now ti))
        × (lookup n q.executors
            ≡ some (record {
              address = s.allocated;
              executor = loop_mode loops (load_from_task (some acts) Executor.new);
            }))
        × (q.emitted ≡ s.emitted ++ (execution_started n ti.task_name ∷ []))
  unfolding execute_task launch mark_started state_signals with_state
  execute_task_loaded disk n path loops now ti acts e l f =
      let (got, sent, _) = update_state_signals s.registry n now running "" ti f in
      let got' : get_task n (mark_started n now s.registry).0
          ≡ some (with_state running "" now ti) =
        got in
      let sent' : (mark_started n now s.registry).1 ≡ [] = sent in
      rw e (
        rw l (
          rw (got', launch)
            (got, rw lookup-insert (rw (beq_refl int_key n)), rw sent' (rw append-nil))))

  -- The report of an executor that the runner holds ends its task: finished with the time and the
  -- signal, but a task stopped meanwhile stays as it is. The executor goes in both cases.
  pub on_task_finished_lem :
      (n now : ℤ) (a : ℕ) (ti : TaskInstance)
      → owner a s.executors ≡ some n
      → ltb_ℤ n (pos 0) ≡ false
      → get_task n s.registry ≡ some ti
      → let q = on_task_finished a now s in
        (get_task n q.registry
          ≡ some (if state_eq ti.state stopped then ti else with_state finished "" now ti))
        × (q.emitted
            ≡ s.emitted
              ++ (if state_eq ti.state stopped
                  then []
                  else of_registry (task_finished n ti.task_name)
                    ∷ execution_finished n ti.task_name
                    ∷ []))
        × (q.executors ≡ erase n s.executors)
  unfolding on_task_finished mark_finished state_signals with_state
  on_task_finished_lem n now a ti e p f =
      let (got, sent, _) = update_state_signals s.registry n now finished "" ti f in
      rw (e, on_task_finished)
        (rw p (
          rw f (elim (Bool-cases (state_eq ti.state stopped)) [
            | inl halted ↦ rw halted (f, rw append-nil, refl)
            | inr live ↦ rw live (
              got,
              rw append_assoc (
                  ap
                    (λ l.
                      s.emitted ++ (map of_registry l ++ (execution_finished n ti.task_name ∷ [])))
                    sent),
              refl,
            )
          ])))
