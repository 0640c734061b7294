-- ===== src/Daemon/World/Safety.antt =====
-- Every input keeps the daemon in order: the registry's records, timers and numbers, and the
-- addresses of the executors.
use macrohelp.Base.{
  ℤ, pos, ◌<ℤ◌, pos_part, ◌+◌, ◌<◌, String, Bool, List, [], ◌∷◌, length, sym, subst, arith,
  Option-cases, inl, inr,
}
use macrohelp.Daemon.Platform.{Platform}
use macrohelp.Daemon.Registry.{execute_requested, task_finished, task_failed}
use macrohelp.Daemon.Runner.{
  Loaded, Notice, of_registry, execution_started, execution_finished, Engine, on_task_finished,
}
use macrohelp.Daemon.Runner.Addresses.{execute_task-Inv, on_task_finished-Inv}
use macrohelp.Daemon.Runner.Soundness.{IsSound, execute_task-Follows, on_task_finished-Follows}
use macrohelp.Daemon.Server.State.{Server}
use macrohelp.Daemon.Server.Routes.{route_of, respond}
use macrohelp.Daemon.Server.Scheduling.{schedule}
use macrohelp.Daemon.World.{
  Input, request, timer_fires, signal_arrives, executor_reports, task_requested, resolve_other,
  run_other, receive_signal, arrive, step, run,
}
use macrohelp.Daemon.World.Good.{
  Good, HasRoom, Good-refl, Good-schedule, Good-Follows, Good-expired, Good-emitted,
}
use macrohelp.Daemon.World.Handlers.{serve-Good, cleanup_temp_task_file-engine}

module _ {F : Type 0} (p : Platform F) where
  run_other-Good :
      (filename : String) (delay loops now : ℤ) (s : Server F)
      → IsSound s.engine
      → HasRoom s.engine
      → Good s.engine (run_other p filename delay loops now s).engine
  unfolding run_other schedule
  run_other-Good filename delay loops now s v room =
      elim (Option-cases (resolve_other p filename s)) [
        | inl e ↦ rw (e, run_other) (Good-refl s.engine v room)
        | inr (t, e) ↦
            rw (e, run_other) (Good-schedule s.engine v room t.base_name t.path _ _ _ now)
      ]

  module _ (load : F → String → Loaded) where
    receive_signal-Good :
        (n : Notice) (now : ℤ) (s : Server F)
        → IsSound s.engine
        → HasRoom s.engine
        → Good s.engine (receive_signal p load n now s).engine
    unfolding receive_signal
    receive_signal-Good (of_registry (execute_requested n path loops)) now s v room =
        Good-Follows s.engine v room _ (execute_task-Follows s.engine _ n path loops now)
          (execute_task-Inv s.engine v.handles _ n path loops now)
    receive_signal-Good (of_registry (task_finished n name)) now s v room =
        subst (λ q. Good s.engine q) (sym (cleanup_temp_task_file-engine p n s))
          (Good-refl s.engine v room)
    receive_signal-Good (of_registry (task_failed n name error)) now s v room =
        subst (λ q. Good s.engine q) (sym (cleanup_temp_task_file-engine p n s))
          (Good-refl s.engine v room)
    receive_signal-Good (execution_started n name) now s v room = Good-refl s.engine v room
    receive_signal-Good (execution_finished n name) now s v room = Good-refl s.engine v room

    arrive-Good :
        (ns : List Notice) (now : ℤ) (s : Server F)
        → IsSound s.engine
        → HasRoom s.engine
        → Good s.engine (arrive p load ns now s).engine
    unfolding arrive
    arrive-Good [] now s v room = Good-refl s.engine v room
    arrive-Good (n ∷ rest) now s v room =
        let e : Engine = record (s.engine) { emitted = rest } in
        let g =
          receive_signal-Good n now (record s { engine = e })
            (Good-emitted s.engine v room rest).sound room in
        record { sound = g.sound; positive = g.positive; counted = g.counted }

    module _ (version : String) (cors : Bool) where
      step-Good :
          (i : Input) (now : ℤ) (s : Server F)
          → IsSound s.engine
          → HasRoom s.engine
          → Good s.engine (step p load version cors i now s).engine
      unfolding step respond
      step-Good (request req) now s v room =
          serve-Good p s v room version (route_of cors req.http_method req.path) req now
      step-Good (timer_fires n) now s v room = Good-expired s.engine v room n now
      step-Good signal_arrives now s v room = arrive-Good s.engine.emitted now s v room
      step-Good (executor_reports a) now s v room =
          Good-Follows s.engine v room (on_task_finished a now s.engine)
            (on_task_finished-Follows s.engine a now)
            (on_task_finished-Inv s.engine v.handles a now)
      step-Good (task_requested filename delay loops) now s v room =
          run_other-Good filename delay loops now s v room

      -- Whatever requests, timers, signals, reports and demands of other tasks arrive, and in
      -- whatever order, the registry and the executors stay in order, as long as every input could
      -- still take a task number that is a positive `int`.
      pub run-IsSound :
          (is : List (Input × ℤ)) (s : Server F)
          → IsSound s.engine
          → pos 0 <ℤ s.engine.registry.next_task_number
          → pos_part s.engine.registry.next_task_number + length is < 2147483648
          → IsSound (run p load version cors is s).engine
      unfolding run
      run-IsSound [] s v positive below = v
      run-IsSound ((i, now) ∷ is) s v positive below =
          let g = step-Good i now s v (positive, omega arith) in
          let counted = g.counted in
          run-IsSound is (step p load version cors i now s) g.sound g.positive (omega arith)
