-- ===== src/Daemon/Runner/Soundness.antt =====
-- The runner keeps the registry well-formed, and counts no task number up.
use macrohelp.Base.{
  ℤ, ℕ, pos, String, Option, List, [], ◌∷◌, ◌≡◌, ◌∙◌, refl, arith, Bool-cases, Option-cases, inl,
  inr, ltb_ℤ,
}
use macrohelp.Base.Dict.{Dict, int_key, lookup}
use macrohelp.Daemon.Types.{TaskState, stopped, finished, failed, running, state_eq}
use macrohelp.Daemon.Registry.{
  Registry, update_state, mark_started, mark_finished, mark_failed, mark_stopped, get_task,
}
use macrohelp.Daemon.Registry.Invariant.{update_state-Inv}
use macrohelp.Daemon.Registry.Invariant
use macrohelp.Daemon.Runner.{
  Disk, Handle, Engine, execute_task, launch, stop_task_thread, stop_all_tasks, stop_each, owner,
  on_task_finished,
}
use macrohelp.Daemon.Runner.Addresses.{Inv, Loaded-cases}

-- The registry and the executors of an engine are in order.
pub record IsSound (s : Engine) : Type 0 where
  pub records : Invariant.Inv s.registry
  pub handles : Inv s

-- A registry that differs by changes of state only.
pub record Follows (r q : Registry) : Type 0 where
  pub keeps : Invariant.Inv r → Invariant.Inv q
  pub same_next : q.next_task_number ≡ r.next_task_number

pub Follows-refl : (r : Registry) → Follows r r
Follows-refl r = record { keeps = λ v. v; same_next = refl }

pub Follows-trans : {a b c : Registry} → Follows a b → Follows b c → Follows a c
Follows-trans f g = record {
  keeps = λ v. g.keeps (f.keeps v);
  same_next = g.same_next ∙ f.same_next;
}

update_state-Follows :
    (r : Registry) (n : ℤ) (s : TaskState) (msg : String) (now : ℤ)
    → Follows r (update_state n s msg now r).0
unfolding update_state
update_state-Follows r n s msg now = record {
  keeps = λ v. update_state-Inv r v n s msg now;
  same_next = ground arith;
}

launch-Follows :
    (s : Engine) (n : ℤ) (acts : List (Option ℕ)) (loops now : ℤ)
    → Follows s.registry (launch n acts loops now s).registry
unfolding launch mark_started
launch-Follows s n acts loops now =
    elim (Option-cases (get_task n (mark_started n now s.registry).0)) [
      | inl e ↦ rw (e, launch) (update_state-Follows s.registry n running "" now)
      | inr (ti, e) ↦ rw (e, launch) (update_state-Follows s.registry n running "" now)
    ]

pub execute_task-Follows :
    (s : Engine) (disk : Disk) (n : ℤ) (path : String) (loops now : ℤ)
    → Follows s.registry (execute_task disk n path loops now s).registry
unfolding execute_task mark_failed
execute_task-Follows s disk n path loops now = elim (Bool-cases (disk.exists path)) [
  | inr missing ↦ rw missing (update_state-Follows s.registry n failed _ now)
  | inl there ↦ elim (Loaded-cases (disk.load path)) [
    | inl (e, bad) ↦ rw there (rw bad (update_state-Follows s.registry n failed e now))
    | inr (acts, good) ↦ rw there (rw good (launch-Follows s n acts loops now))
  ]
]

pub stop_task_thread-Follows :
    (s : Engine) (n now : ℤ) → Follows s.registry (stop_task_thread n now s).registry
unfolding stop_task_thread mark_stopped
stop_task_thread-Follows s n now = elim (Option-cases (lookup n s.executors)) [
  | inl e ↦ rw (e, stop_task_thread) (Follows-refl s.registry)
  | inr (h, e) ↦ rw (e, stop_task_thread) (update_state-Follows s.registry n stopped "" now)
]

stop_each-Follows :
    (hs : Dict ℤ Handle) (now : ℤ) (s : Engine) → Follows s.registry (stop_each hs now s).registry
unfolding stop_each mark_stopped
stop_each-Follows [] now s = Follows-refl s.registry
stop_each-Follows ((n, h) ∷ hs) now s =
    Follows-trans (update_state-Follows s.registry n stopped "" now) (stop_each-Follows hs now _)

pub stop_all_tasks-Follows :
    (s : Engine) (now : ℤ) → Follows s.registry (stop_all_tasks now s).registry
unfolding stop_all_tasks
stop_all_tasks-Follows s now = stop_each-Follows s.executors now s

pub on_task_finished-Follows :
    (s : Engine) (a : ℕ) (now : ℤ) → Follows s.registry (on_task_finished a now s).registry
unfolding on_task_finished mark_finished
on_task_finished-Follows s a now = elim (Option-cases (owner a s.executors)) [
  | inl e ↦ rw (e, on_task_finished) (Follows-refl s.registry)
  | inr (n, e) ↦
      rw (e, on_task_finished)
        (elim (Bool-cases (ltb_ℤ n (pos 0))) [
          | inl negative ↦ rw negative (Follows-refl s.registry)
          | inr positive ↦ rw positive (elim (Option-cases (get_task n s.registry)) [
            | inl f ↦ rw f (Follows-refl s.registry)
            | inr (ti, f) ↦ elim (Bool-cases (state_eq ti.state stopped)) [
              | inl halted ↦ rw f (rw halted (Follows-refl s.registry))
              | inr live ↦ rw f (rw live (update_state-Follows s.registry n finished "" now))
            ]
          ])
        ])
]
