-- ===== src/Hub/Dispatch/Polling.antt =====
-- Ticks and cancellations keep a dispatch in order, at any time and after any reply.
use macrohelp.Base.{
  Bool, true, ◌&&◌, Option, none, [], ◌≡◌, refl, arith, Bool-cases, Option-cases, inl, inr,
}
use macrohelp.Hub.Host.{Host}
use macrohelp.Hub.Segment.Loop.{List-cases}
use macrohelp.Hub.Dispatch.{
  Machine, Report, is_finished, is_failed, is_stopped, is_pending, poll_error, cancel, reported,
  tick, poll_again, is_stale, is_pollable,
}
use macrohelp.Hub.Dispatch.Order.{
  IsOrderly, EndsOrderly, ends_orderly, resting, finish-IsSettled, next-IsReady, GivesNumbers,
}
use macrohelp.Hub.Dispatch.Submission.{submit-Ends}

pub cancel-IsOrderly : {G : Type 0} (m : Machine G) → IsOrderly m → IsOrderly (cancel m)
unfolding cancel
cancel-IsOrderly m o = elim (Bool-cases m.active) [
  | inl e ↦ rw (e, cancel) (resting _ refl refl)
  | inr e ↦ rw (e, cancel) (resting _ refl (o.off e))
]

module _ {G A : Type 0} (h : Host G A) where
  poll_again-Ends : (due : Bool) (m : Machine G) → IsOrderly m → EndsOrderly (poll_again h due m)
  poll_again-Ends due m o = elim (Bool-cases (is_pollable m && due)) [
    | inl e ↦ rw e (record { off = o.off; on = o.on })
    | inr e ↦ rw e o
  ]

  module _ (numbers : GivesNumbers h) where
    reported-Ends :
        (r : Report) (due : Bool) (m : Machine G)
        → m.active ≡ true
        → IsOrderly m
        → EndsOrderly (reported h r due m)
    unfolding reported
    reported-Ends (poll_error message) due m a o = record { off = o.off; on = o.on }
    reported-Ends is_finished due m a o = elim (List-cases m.cursor.tokens) [
      | inl e ↦ rw (e, reported) (resting _ refl refl)
      | inr (t, ts, e) ↦
          rw (e, reported)
            (ends_orderly _ (
              submit-Ends h numbers _ (record {
                due = ground (arith, a);
                ready = next-IsReady m (o.on a).1 (o.on a).2 (λ q. absurd (ground (arith, e, q)));
              })))
    ]
    reported-Ends (is_failed message) due m a o = (finish-IsSettled _ (record m { error = [] })).0
    reported-Ends (is_stopped message) due m a o = (finish-IsSettled _ (record m { error = [] })).0
    reported-Ends is_pending due m a o =
        poll_again-Ends due (record m { error = [] }) (record { off = o.off; on = o.on })

    pub tick-Ends :
        (ready : Option Report) (due : Bool) (m : Machine G)
        → IsOrderly m
        → EndsOrderly (tick h ready due m)
    unfolding tick
    tick-Ends ready due m o = elim (Option-cases m.poll) [
      | inl e ↦ rw (e, tick) (poll_again-Ends due m o)
      | inr (p, e) ↦ elim (Option-cases ready) [
        | inl f ↦ rw (e, f, tick) o
        | inr (r, f) ↦ elim (Bool-cases (is_stale h p m)) [
          | inl s ↦ rw (e, f, s, tick) (record { off = o.off; on = o.on })
          | inr s ↦
              rw (e, f, s, tick)
                (reported-Ends r due (record m { poll = none }) (ground (arith, s))
                  (record { off = o.off; on = o.on }))
        ]
      ]
    ]
