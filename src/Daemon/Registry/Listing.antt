-- ===== src/Daemon/Registry/Listing.antt =====
-- `listTasks`: which records it returns, and in which order.
use macrohelp.Base.{
  ℤ, ◌<ℤ◌, All, sym, eqb_ℤ, eqb_ℤ_iff, Option, none, some, Bool, ◌||◌, List, [], ◌∷◌, select,
  if◌then◌else◌, ◌≡◌, refl, ◌∙◌, subst, ap, arith, Bool-cases, inl, inr,
}
use macrohelp.Base.Dict.{Dict, int_key, lookup, values, KeysAbove, Ascending, lookup_above}
use macrohelp.Daemon.Types.{TaskState, idle, TaskInstance, state_eq}
use macrohelp.Daemon.Registry.{Registry, list_tasks, sorted, insert_by_number, get_task}
use macrohelp.Daemon.Registry.Invariant.{Inv, NumberedAs}

-- Every record stands under its own number.
abbrev Labelled : Dict ℤ TaskInstance → Type 0
Labelled [] = Unit
Labelled ((k, t) ∷ m) = (t.task_number ≡ k) × Labelled m

labelled :
    (m : Dict ℤ TaskInstance) → Ascending m → ((n : ℤ) → NumberedAs n (lookup n m)) → Labelled m
unfolding lookup
labelled [] a h = tt
labelled ((k, t) ∷ m) (b, a) h = (here, labelled m a rest)
  where
    here : t.task_number ≡ k
    here = ground (arith, h k, eqb_ℤ_iff k k)

    rest : (n : ℤ) → NumberedAs n (lookup n m)
    rest n = elim (Bool-cases (eqb_ℤ k n)) [
      | inl same ↦ rw (lookup_above n m (subst (λ x. KeysAbove x m) ((eqb_ℤ_iff k n).0 same) b)) tt
      | inr other ↦ rw other at (h n)
    ]

module _ (p : TaskInstance → Bool) where
  insert_front :
      (t : TaskInstance) (m : Dict ℤ TaskInstance)
      → KeysAbove t.task_number m
      → Labelled m
      → insert_by_number t (select p (values m)) ≡ t ∷ select p (values m)
  unfolding insert_by_number
  insert_front t [] a l = refl
  insert_front t ((j, u) ∷ m) (b, a) (e, l) = ground (arith, insert_front t m a l)

  -- The map is in order already, so that the sort keeps what the loop collected.
  sorted-select :
      (m : Dict ℤ TaskInstance)
      → Ascending m
      → Labelled m
      → sorted (select p (values m)) ≡ select p (values m)
  unfolding sorted
  sorted-select [] a l = refl
  sorted-select ((k, t) ∷ m) (b, a) (e, l) =
      ground (arith, sorted-select m a l, insert_front t m (rw e b) l)

-- Every number is below those after it.
abbrev pub NumbersAbove : ℤ → List TaskInstance → Type 0
NumbersAbove n = All (λ t. n <ℤ t.task_number)

abbrev pub Ordered : List TaskInstance → Type 0
Ordered [] = Unit
Ordered (t ∷ ts) = NumbersAbove t.task_number ts × Ordered ts

select-NumbersAbove :
    (p : TaskInstance → Bool) (n : ℤ) (m : Dict ℤ TaskInstance)
    → KeysAbove n m
    → Labelled m
    → NumbersAbove n (select p (values m))
select-NumbersAbove p n [] a l = tt
select-NumbersAbove p n ((k, t) ∷ m) (b, a) (e, l) =
    let rest = select-NumbersAbove p n m a l in
    elim (Bool-cases (p t)) [
      | inl kept_one ↦ rw kept_one (subst (λ x. n <ℤ x) (sym e) b, rest)
      | inr dropped ↦ rw dropped rest
    ]

select-Ordered :
    (p : TaskInstance → Bool) (m : Dict ℤ TaskInstance)
    → Ascending m
    → Labelled m
    → Ordered (select p (values m))
select-Ordered p [] a l = tt
select-Ordered p ((k, t) ∷ m) (b, a) (e, l) =
    let rest = select-Ordered p m a l in
    elim (Bool-cases (p t)) [
      | inl kept_one ↦ rw kept_one (
        subst (λ x. NumbersAbove x (select p (values m))) (sym e) (select-NumbersAbove p k m b l),
        rest,
      )
      | inr dropped ↦ rw dropped rest
    ]

-- The record with a number, in a list.
abbrev pub find_number : ℤ → List TaskInstance → Option TaskInstance
find_number n [] = none
find_number n (t ∷ ts) = if eqb_ℤ t.task_number n then some t else find_number n ts

abbrev pub kept : (TaskInstance → Bool) → Option TaskInstance → Option TaskInstance
kept p none = none
kept p (some t) = if p t then some t else none

find_number-select :
    (p : TaskInstance → Bool) (n : ℤ) (m : Dict ℤ TaskInstance)
    → Ascending m
    → Labelled m
    → find_number n (select p (values m)) ≡ kept p (lookup n m)
unfolding lookup
find_number-select p n [] a l = refl
find_number-select p n ((k, t) ∷ m) (b, a) (e, l) =
    ground (arith, find_number-select p n m a l, lookup_above n m, eqb_ℤ_iff k n)

-- The list is in strictly ascending order of the task numbers, so that no number stands in it twice, and
-- holds under each number the record that the registry has there, if it passes the filter (`idle` lets
-- every record pass).
pub list_tasks_lem :
    (r : Registry) (filter : TaskState) (n : ℤ)
    → Inv r
    → Ordered (list_tasks filter r)
      × (find_number n (list_tasks filter r)
          ≡ kept (λ t. state_eq filter idle || state_eq t.state filter) (get_task n r))
unfolding list_tasks get_task
list_tasks_lem r filter n v =
    let p = λ (t : TaskInstance). state_eq filter idle || state_eq t.state filter in
    let l = labelled r.tasks v.ascending v.numbered in
    (
      subst Ordered (sym (sorted-select p r.tasks v.ascending l))
          (select-Ordered p r.tasks v.ascending l),
      ap (find_number n) (sorted-select p r.tasks v.ascending l)
          ∙ find_number-select p n r.tasks v.ascending l,
    )
