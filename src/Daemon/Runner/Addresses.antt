-- ===== src/Daemon/Runner/Addresses.antt =====
-- Where the runner's executors stand: an address names at most one of them.
use macrohelp.Base.{
  ℤ, pos, ltb_ℤ, ℕ, ◌+◌, ◌<◌, ◌≢◌, eqb_ℤ, String, Option, none, some, List, [], ◌∷◌, All, ◌≡◌, refl,
  sym, subst, arith, Bool-cases, Option-cases, ◌⊎◌, inl, inr,
}
use macrohelp.Base.Dict.{Dict, int_key, lookup, insert, erase}
use macrohelp.Daemon.Types.{stopped, state_eq}
use macrohelp.Daemon.Registry.{get_task, mark_started}
use macrohelp.Daemon.Runner.{
  Disk, Loaded, Handle, Engine, refused, loaded, execute_task, launch, loop_mode, stop_task_thread,
  stop_all_tasks, owner, on_task_finished,
}
use macrohelp.Daemon.Executor.{load_from_task}
use macrohelp.Daemon.Executor

-- No executor stands at the address.
abbrev pub Lacks : ℕ → Dict ℤ Handle → Type 0
Lacks a = All (λ p. p.1.address ≢ a)

abbrev pub Apart : Dict ℤ Handle → Type 0
Apart [] = Unit
Apart ((n, h) ∷ hs) = Lacks h.address hs × Apart hs

-- Executors stand at different addresses, all of them allocated before.
pub record Inv (s : Engine) : Type 0 where
  pub apart : Apart s.executors
  pub bounded : All (λ p. p.1.address < s.allocated) s.executors

erase-All {ℓ} :
    (P : ℤ × Handle → Type ℓ) (n : ℤ) (hs : Dict ℤ Handle) → All P hs → All P (erase n hs)
unfolding erase
erase-All P n [] a = tt
erase-All P n ((k, h) ∷ hs) (p, a) = ground (arith, erase-All P n hs a)

erase-Apart : (n : ℤ) (hs : Dict ℤ Handle) → Apart hs → Apart (erase n hs)
unfolding erase
erase-Apart n [] a = tt
erase-Apart n ((k, h) ∷ hs) (l, a) =
    ground (arith, erase-Apart n hs a, erase-All (λ p. p.1.address ≢ h.address) n hs l)

lookup-Lacks :
    (n : ℤ) (a : ℕ) (hs : Dict ℤ Handle) (h : Handle)
    → lookup n hs ≡ some h
    → Lacks a hs
    → h.address ≢ a
unfolding lookup
lookup-Lacks n a [] h e l = cc
lookup-Lacks n a ((k, g) ∷ hs) h e (p, l) = elim (Bool-cases (eqb_ℤ k n)) [
  | inl same ↦ ground arith
  | inr other ↦ lookup-Lacks n a hs h (rw other at e) l
]

pub erase-Lacks :
    (n : ℤ) (hs : Dict ℤ Handle) (h : Handle)
    → lookup n hs ≡ some h
    → Apart hs
    → Lacks h.address (erase n hs)
unfolding lookup erase
erase-Lacks n [] h e a = cc
erase-Lacks n ((k, g) ∷ hs) h e (l, a) = elim (Bool-cases (eqb_ℤ k n)) [
  | inl same ↦
      let g≡h : g.address ≡ h.address = ground arith in
      rw same (subst (λ x. Lacks x (erase n hs)) g≡h (erase-All _ n hs l))
  | inr other ↦
      let e' : lookup n hs ≡ some h = rw other at e in
      rw other (λ q. lookup-Lacks n g.address hs h e' l (sym q), erase-Lacks n hs h e' a)
]

pub owner-Lacks : (a : ℕ) (hs : Dict ℤ Handle) → Lacks a hs → owner a hs ≡ none
unfolding owner
owner-Lacks a [] l = refl
owner-Lacks a ((k, h) ∷ hs) (p, l) = ground (arith, owner-Lacks a hs l)

insert-All {ℓ} :
    (P : ℤ × Handle → Type ℓ) (n : ℤ) (h : Handle) (hs : Dict ℤ Handle)
    → P (n, h)
    → All P hs
    → All P (insert n h hs)
unfolding insert
insert-All P n h [] p a = (p, tt)
insert-All P n h ((k, g) ∷ hs) p (q, a) = ground (arith, insert-All P n h hs p a)

All-map {ℓ κ} :
    {P : ℤ × Handle → Type ℓ} {Q : ℤ × Handle → Type κ} (hs : Dict ℤ Handle)
    → ((p : ℤ × Handle) → P p → Q p)
    → All P hs
    → All Q hs
All-map [] f a = tt
All-map (p ∷ hs) f (x, a) = (f p x, All-map hs f a)

insert-Apart :
    (n : ℤ) (h : Handle) (hs : Dict ℤ Handle)
    → Lacks h.address hs
    → Apart hs
    → Apart (insert n h hs)
unfolding insert
insert-Apart n h [] l a = (tt, tt)
insert-Apart n h ((k, g) ∷ hs) (p, l) (m, a) = ground (
  arith,
  insert-Apart n h hs l a,
  insert-All (λ p. p.1.address ≢ g.address) n h hs (λ q. p (sym q)) m,
)

pub Loaded-cases :
    (l : Loaded) → ((e : String) × (l ≡ refused e)) ⊎ ((acts : List (Option ℕ)) × (l ≡ loaded acts))
Loaded-cases (refused e) = inl (e, refl)
Loaded-cases (loaded acts) = inr (acts, refl)

module _ (s : Engine) (v : Inv s) where
  launch-Inv : (n : ℤ) (acts : List (Option ℕ)) (loops now : ℤ) → Inv (launch n acts loops now s)
  unfolding launch
  launch-Inv n acts loops now =
      let x = loop_mode loops (load_from_task (some acts) Executor.new) in
      let h : Handle = record { address = s.allocated; executor = x } in
      let a =
        insert-Apart n h s.executors
          (All-map s.executors (λ p lt e. absurd (omega arith)) v.bounded) v.apart in
      let b =
        insert-All (λ p. p.1.address < s.allocated + 1) n h s.executors (omega arith)
          (All-map s.executors (λ p lt. omega arith) v.bounded) in
      elim (Option-cases (get_task n (mark_started n now s.registry).0)) [
        | inl e ↦ rw (e, launch) (record { apart = a; bounded = b })
        | inr (ti, e) ↦ rw (e, launch) (record { apart = a; bounded = b })
      ]

  -- A new executor stands at an address of its own.
  pub execute_task-Inv :
      (disk : Disk) (n : ℤ) (path : String) (loops now : ℤ)
      → Inv (execute_task disk n path loops now s)
  unfolding execute_task
  execute_task-Inv disk n path loops now = elim (Bool-cases (disk.exists path)) [
    | inr missing ↦ rw missing (record { apart = v.apart; bounded = v.bounded })
    | inl there ↦ elim (Loaded-cases (disk.load path)) [
      | inl (e, bad) ↦ rw there (rw bad (record { apart = v.apart; bounded = v.bounded }))
      | inr (acts, good) ↦ rw there (rw good (launch-Inv n acts loops now))
    ]
  ]

  pub stop_task_thread-Inv : (n now : ℤ) → Inv (stop_task_thread n now s)
  unfolding stop_task_thread
  stop_task_thread-Inv n now = elim (Option-cases (lookup n s.executors)) [
    | inl e ↦ rw (e, stop_task_thread) v
    | inr (h, e) ↦
        rw (e, stop_task_thread)
          (record {
            apart = erase-Apart n s.executors v.apart;
            bounded = erase-All _ n s.executors v.bounded;
          })
  ]

  pub on_task_finished-Inv : (a : ℕ) (now : ℤ) → Inv (on_task_finished a now s)
  unfolding on_task_finished
  on_task_finished-Inv a now = elim (Option-cases (owner a s.executors)) [
    | inl e ↦ rw (e, on_task_finished) v
    | inr (n, e) ↦
        let w : Inv (record s { executors = erase n s.executors }) = record {
          apart = erase-Apart n s.executors v.apart;
          bounded = erase-All _ n s.executors v.bounded;
        } in
        rw (e, on_task_finished)
          (elim (Bool-cases (ltb_ℤ n (pos 0))) [
            | inl negative ↦ rw negative v
            | inr positive ↦ rw positive (elim (Option-cases (get_task n s.registry)) [
              | inl f ↦ rw f w
              | inr (ti, f) ↦ elim (Bool-cases (state_eq ti.state stopped)) [
                | inl halted ↦ rw f (rw halted w)
                | inr live ↦ rw f (rw live (record { apart = w.apart; bounded = w.bounded }))
              ]
            ])
          ])
  ]

  pub stop_all_tasks-Inv : (now : ℤ) → Inv (stop_all_tasks now s)
  unfolding stop_all_tasks
  stop_all_tasks-Inv now = record { apart = tt; bounded = tt }
