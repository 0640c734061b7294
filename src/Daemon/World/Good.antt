-- ===== src/Daemon/World/Good.antt =====
-- What one input may do to an engine that is in order.
use macrohelp.Base.{
  ℤ, pos, ◌<ℤ◌, pos_part, wrap32_suc, ◌+◌, ◌<◌, String, List, refl, sym, subst, arith,
}
use macrohelp.Daemon.Registry.{Registry, schedule_task, stop_all, stop_task, on_delay_timer_expired}
use macrohelp.Daemon.Registry.Invariant
use macrohelp.Daemon.Runner.{Engine, through, stop_task_thread, stop_all_tasks}
use macrohelp.Daemon.Runner.Addresses
use macrohelp.Daemon.Runner.Soundness.{
  IsSound, Follows, Follows-trans, stop_task_thread-Follows, stop_all_tasks-Follows,
}

-- A task number that is free below the largest `int`.
abbrev pub HasRoom : Engine → Type 0
HasRoom e = (pos 0 <ℤ e.registry.next_task_number) × (e.registry.next_task_number <ℤ pos 2147483647)

-- The engine is in order again, and at most one task number is used.
pub record Good (e q : Engine) : Type 0 where
  pub sound : IsSound q
  pub positive : pos 0 <ℤ q.registry.next_task_number
  pub counted : pos_part q.registry.next_task_number < pos_part e.registry.next_task_number + 2

stop_task-Follows : (n now : ℤ) (r : Registry) → Follows r (stop_task n now r)
unfolding stop_task
stop_task-Follows n now r = record {
  keeps = λ v. Invariant.stop_task-Inv r v n now;
  same_next = ground arith;
}

stop_all-Follows : (now : ℤ) (r : Registry) → Follows r (stop_all now r)
unfolding stop_all
stop_all-Follows now r = record { keeps = λ v. Invariant.stop_all-Inv r v now; same_next = refl }

expired-Follows : (n now : ℤ) (r : Registry) → Follows r (on_delay_timer_expired n now r).0
unfolding on_delay_timer_expired
expired-Follows n now r = record {
  keeps = λ v. Invariant.on_delay_timer_expired-Inv r v n now;
  same_next = ground arith;
}

module _ (e : Engine) (v : IsSound e) (room : HasRoom e) where
  pub Good-refl : Good e e
  Good-refl = record { sound = v; positive = room.0; counted = omega arith }

  pub Good-schedule :
      (name path : String) (delay loops : ℤ) (description : String) (now : ℤ)
      → Good e (record e {
        registry = (schedule_task name path delay loops description now e.registry).1;
      })
  unfolding schedule_task
  Good-schedule name path delay loops description now =
      let next = wrap32_suc e.registry.next_task_number room.0 room.1 in
      record {
        sound = record {
          records =
              Invariant.schedule_task-Inv e.registry v.records name path delay loops description now
                room.0 room.1;
          handles = record { apart = v.handles.apart; bounded = v.handles.bounded };
        };
        positive = next.1;
        counted = next.2;
      }

  pub Good-Follows : (q : Engine) → Follows e.registry q.registry → Addresses.Inv q → Good e q
  Good-Follows q f w = record {
    sound = record { records = f.keeps v.records; handles = w };
    positive = subst (λ n. pos 0 <ℤ n) (sym f.same_next) room.0;
    counted =
        subst (λ n. pos_part n < pos_part e.registry.next_task_number + 2) (sym f.same_next)
          (omega arith);
  }

  pub Good-stop_one :
      (n now : ℤ)
      → let q = stop_task_thread n now e in
        Good e (record q { registry = stop_task n now q.registry })
  Good-stop_one n now =
      let q = stop_task_thread n now e in
      let w = Addresses.stop_task_thread-Inv e v.handles n now in
      Good-Follows (record q { registry = stop_task n now q.registry })
        (Follows-trans (stop_task_thread-Follows e n now) (stop_task-Follows n now q.registry))
        (record { apart = w.apart; bounded = w.bounded })

  pub Good-stop_everything :
      (now : ℤ)
      → let q = stop_all_tasks now e in Good e (record q { registry = stop_all now q.registry })
  Good-stop_everything now =
      let q = stop_all_tasks now e in
      let w = Addresses.stop_all_tasks-Inv e v.handles now in
      Good-Follows (record q { registry = stop_all now q.registry })
        (Follows-trans (stop_all_tasks-Follows e now) (stop_all-Follows now q.registry))
        (record { apart = w.apart; bounded = w.bounded })

  pub Good-expired : (n now : ℤ) → Good e (through (on_delay_timer_expired n now) e)
  Good-expired n now =
      Good-Follows (through (on_delay_timer_expired n now) e) (expired-Follows n now e.registry)
        (record { apart = v.handles.apart; bounded = v.handles.bounded })

  pub Good-emitted : (ns : List _) → Good e (record e { emitted = ns })
  Good-emitted ns = record {
    sound = record {
      records = v.records;
      handles = record { apart = v.handles.apart; bounded = v.handles.bounded };
    };
    positive = room.0;
    counted = omega arith;
  }
