-- ===== src/Hub/Dispatch/Staleness.antt =====
-- A reply to a poll of an earlier dispatch does nothing to a later one.
use macrohelp.Base.{
  ℕ, zero, suc, ◌<◌, ◌==◌, Bool, true, false, ◌||◌, Option, none, some, ◌≡◌, ◌⊎◌, refl, arith,
  Bool-cases, Option-cases, inl, inr,
}
use macrohelp.Control.Checked.{Checked-cases}
use macrohelp.Runtime.Text.{Text}
use macrohelp.Hub.Host.{Host, Scheduled, accepted, refused, broken}
use macrohelp.Hub.Segment.{
  Work, Course, onward, compiled, turned_down, thrown_out, fault, out_of_fuel, compile_segment,
  document_of, prepare,
}
use macrohelp.Hub.Segment.Loop.{List-cases}
use macrohelp.Hub.Dispatch.{
  Machine, Poll, Report, finish, cancel, submitted, after_segment, Outcome, settled, faulted,
  exhausted, broken_off, next_index, begin, answered, pass_on, treat, submit_rounds, submit,
  start_script, tick, is_due, is_stale, next_generation,
}
use macrohelp.Hub.Dispatch.Order.{IsOrderly, Ends, GivesNumbers}
use macrohelp.Hub.Dispatch.Submission.{start_script-Ends}
use macrohelp.Hub.Dispatch.Polling.{cancel-IsOrderly}

module _ {G : Type 0} where
  abbrev Leaves : (Machine G → Type 0) → Outcome G → Type 0
  Leaves P (settled verdict m) = P m
  Leaves P faulted = Unit
  Leaves P exhausted = Unit

  Ends-Leaves :
      (P : Bool → Machine G → Type 0) (Q R : Machine G → Type 0) (o : Outcome G)
      → ((m : Machine G) → Q m → R m)
      → Ends P o
      → Leaves Q o
      → Ends (λ verdict m. R m) o
  Ends-Leaves P Q R (settled verdict m) f p q = f m q
  Ends-Leaves P Q R faulted f p q = p
  Ends-Leaves P Q R exhausted f p q = p

  Leaves-mono :
      (P Q : Machine G → Type 0) (o : Outcome G)
      → ((m : Machine G) → P m → Q m)
      → Leaves P o
      → Leaves Q o
  Leaves-mono P Q (settled verdict m) f p = f m p
  Leaves-mono P Q faulted f p = tt
  Leaves-mono P Q exhausted f p = tt

  -- The poll stands, in this generation or in the next.
  abbrev IsLater : Option Poll → ℕ → Machine G → Type 0
  IsLater p n m = (m.poll ≡ p) × ((m.generation ≡ n) ⊎ (m.generation ≡ next_generation n))

  finish-IsLater :
      (p : Option Poll) (n : ℕ) (message : Text) (m : Machine G)
      → IsLater p n m
      → IsLater p n (finish message m)
  unfolding finish
  finish-IsLater p n message m l = l

  broken_off-IsLater :
      (p : Option Poll) (n : ℕ) (stop : Bool) (message : Text) (m : Machine G)
      → m.poll ≡ p
      → m.generation ≡ n
      → IsLater p n (broken_off stop message m)
  unfolding broken_off finish cancel
  broken_off-IsLater p n false message m e g = (e, inl g)
  broken_off-IsLater p n true message m e g = elim (Bool-cases m.active) [
    | inl a ↦ rw (a, cancel) (e, inr (rw g refl))
    | inr a ↦ rw (a, cancel) (e, inl g)
  ]

module _ {G A : Type 0} (h : Host G A) (p : Option Poll) (n : ℕ) where
  abbrev IsNow : Machine G → Type 0
  IsNow m = (m.poll ≡ p) × (m.generation ≡ n)

  module _ (k : Machine G → Outcome G)
      (go : (m : Machine G) → IsNow m → Leaves (IsLater p n) (k m)) where
    answered-Leaves :
        (r : Scheduled) (m : Machine G) → IsNow m → Leaves (IsLater p n) (answered h r m k)
    unfolding answered submitted
    answered-Leaves (accepted (some t)) m e = go (submitted (some t) m) e
    answered-Leaves (accepted none) m e = go (submitted none m) e
    answered-Leaves (refused message) m e = finish-IsLater p n message m (e.0, inl e.1)
    answered-Leaves (broken message) m e = finish-IsLater p n message m (e.0, inl e.1)

    pass_on-Leaves :
        (w : Work G A) (m : Machine G) → IsNow m → Leaves (IsLater p n) (pass_on h w m k)
    unfolding pass_on
    pass_on-Leaves w m e = elim (Option-cases (document_of true w)) [
      | inr (d, f) ↦
          rw (f, pass_on)
            (answered-Leaves _ (record (after_segment w m) { env = (h.schedule d w.env).0 }) e)
      | inl f ↦ elim (List-cases w.cursor.tokens) [
        | inl g ↦ rw (f, g, pass_on) (e.0, inl e.1)
        | inr (t, ts, g) ↦ rw (f, g, pass_on) (go (next_index (after_segment w m)) e)
      ]
    ]

    treat-Leaves : (c : Course G A) (m : Machine G) → IsNow m → Leaves (IsLater p n) (treat h c m k)
    unfolding treat
    treat-Leaves (compiled w) m e = pass_on-Leaves w m e
    treat-Leaves (turned_down w message) m e =
        finish-IsLater p n message (after_segment w m) (e.0, inl e.1)
    treat-Leaves (thrown_out w message stop) m e =
        broken_off-IsLater p n stop message (after_segment w m) e.0 e.1
    treat-Leaves (onward w) m e = tt
    treat-Leaves fault m e = tt
    treat-Leaves out_of_fuel m e = tt

  submit_rounds-Leaves :
      (f : ℕ) (m : Machine G) → IsNow m → Leaves (IsLater p n) (submit_rounds h f m)
  unfolding submit_rounds
  submit_rounds-Leaves zero m e = tt
  submit_rounds-Leaves (suc f) m e = elim (Bool-cases (is_due m)) [
    | inr d ↦ rw (d, submit_rounds) (e.0, inl e.1)
    | inl d ↦
        rw (d, submit_rounds)
          (treat-Leaves (λ m1. submit_rounds h f m1) (submit_rounds-Leaves f)
            (compile_segment h true m.cursor m.env) m e)
  ]

  submit-Leaves : (m : Machine G) → IsNow m → Leaves (IsLater p n) (submit h m)
  unfolding submit
  submit-Leaves m e = submit_rounds-Leaves _ m e

-- Two later generations differ from one that fits in 64 bits.
next_differs :
    (n g : ℕ)
    → n < 18446744073709551616
    → (g ≡ next_generation (next_generation n))
      ⊎ (g ≡ next_generation (next_generation (next_generation n)))
    → (n == g) ≡ false
unfolding next_generation
next_differs n g b (inl e) = ground arith
next_differs n g b (inr e) = ground arith

module _ {G A : Type 0} (h : Host G A) where
  -- Where a poll of the machine is too old.
  abbrev IsOutdated : Poll → Machine G → Type 0
  IsOutdated p m = (m.poll ≡ some p) × (is_stale h p m ≡ true)

  stale_of_generation :
      (p : Poll) (m : Machine G) → (p.generation == m.generation) ≡ false → is_stale h p m ≡ true
  stale_of_generation p m e = ground (arith, e)

  cancel_parts :
      (m : Machine G)
      → m.active ≡ true
      → ((cancel m).poll ≡ m.poll)
        × ((cancel m).generation ≡ next_generation m.generation)
        × ((cancel m).active ≡ false)
  unfolding cancel
  cancel_parts m a = rw (a, cancel) (refl, refl, refl)

  cancelled-IsOutdated :
      (m : Machine G) (p : Poll) → m.active ≡ true → m.poll ≡ some p → IsOutdated p (cancel m)
  cancelled-IsOutdated m p a e =
      let (q, g, c) = cancel_parts m a in (rw (q, e) refl, ground (arith, c))

  later-IsOutdated :
      (p : Poll) (m : Machine G)
      → p.generation < 18446744073709551616
      → IsLater (some p) (next_generation (next_generation p.generation)) m
      → IsOutdated p m
  later-IsOutdated p m b (e, g) =
      (e, stale_of_generation p m (next_differs p.generation m.generation b g))

  restarted_now :
      (m : Machine G) (p : Poll)
      → m.active ≡ true
      → m.poll ≡ some p
      → p.generation ≡ m.generation
      → ((cancel m).poll ≡ some p)
        × (next_generation (cancel m).generation ≡ next_generation (next_generation p.generation))
  restarted_now m p a e g = let (q, n, c) = cancel_parts m a in (rw (q, e) refl, rw (n, g) refl)

  start_script-Leaves :
      (script : Text) (reading : Bool) (m : Machine G) (p : Poll)
      → m.active ≡ true
      → m.poll ≡ some p
      → p.generation ≡ m.generation
      → m.generation < 18446744073709551616
      → Leaves (IsOutdated p) (start_script h script reading (cancel m))
  unfolding start_script
  start_script-Leaves script reading m p a e g b =
      elim (Bool-cases ((cancel m).active || reading)) [
        | inl c ↦ rw (c, start_script) (cancelled-IsOutdated m p a e)
        | inr c ↦ elim (Checked-cases (prepare script)) [
          | inr (status, message, f) ↦ rw (c, f, start_script) (cancelled-IsOutdated m p a e)
          | inl (cursor, f) ↦
              rw (c, f, start_script)
                (Leaves-mono _ (IsOutdated p) (submit h (begin cursor (cancel m)))
                  (λ m1 l. later-IsOutdated p m1 (rw g b) l)
                  (submit-Leaves h (some p) _ (begin cursor (cancel m)) (restarted_now m p a e g)))
        ]
      ]

  outdated_tick :
      (p : Poll) (m : Machine G) (r : Report) (due : Bool)
      → m.poll ≡ some p
      → is_stale h p m ≡ true
      → tick h (some r) due m ≡ settled true (record m { poll = none })
  unfolding tick
  outdated_tick p m r due e s = rw (e, s, tick) refl

  -- If an accepted task has a number that is not 0, and a dispatch in order runs with a poll of its own
  -- generation, which fits in 64 bits: after a cancellation, the start of any script ends, and the
  -- next tick with any reply to that poll only takes the poll away.
  pub tick-outdated :
      (numbers : GivesNumbers h) (script : Text) (reading : Bool) (m : Machine G) (p : Poll)
      (r : Report) (due : Bool)
      → IsOrderly m
      → m.active ≡ true
      → m.poll ≡ some p
      → p.generation ≡ m.generation
      → m.generation < 18446744073709551616
      → Ends
          (λ verdict m1. tick h (some r) due m1 ≡ settled true (record m1 { poll = none }))
          (start_script h script reading (cancel m))
  tick-outdated numbers script reading m p r due o a e g b =
      Ends-Leaves _ (IsOutdated p) _ (start_script h script reading (cancel m))
        (λ m1 (f, s). outdated_tick p m1 r due f s)
        (start_script-Ends h numbers script reading (cancel m) (cancel-IsOrderly m o))
        (start_script-Leaves script reading m p a e g b)
