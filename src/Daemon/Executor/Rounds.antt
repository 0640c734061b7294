-- ===== src/Daemon/Executor/Rounds.antt =====
-- How often the executor runs its actions.

use macrohelp.Base.{
  ℕ, zero, suc, ◌+◌, ◌-◌, ◌<◌, ◌≤◌, ◌==◌, Option, none, some, Bool, true, false, List, [], ◌∷◌,
  ◌++◌, if◌then◌else◌, ◌≡◌, refl, arith,
}
use macrohelp.Daemon.Executor.{
  Executor, Event, running_act, run_action, done_act, finished_one_loop, finished_all_loops, pass,
  rounds, run, decrement,
}

-- What one undisturbed pass emits: each action that is there is announced, run and reported.
pub whole_pass : List (Option ℕ) → List Event
whole_pass [] = []
whole_pass (none ∷ acts) = whole_pass acts
whole_pass (some a ∷ acts) = running_act a ∷ run_action a ∷ done_act a ∷ whole_pass acts

-- n passes, each with its report, then the final one.
pub whole_run : List (Option ℕ) → ℕ → List Event
whole_run acts zero = finished_all_loops ∷ []
whole_run acts (suc n) = whole_pass acts ++ (finished_one_loop ∷ whole_run acts n)

abbrev pub never : ℕ → Bool
never k = false

pass-trace : (acts : List (Option ℕ)) (k : ℕ) → (pass never acts k).trace ≡ whole_pass acts
unfolding pass whole_pass
pass-trace [] k = refl
pass-trace (none ∷ acts) k = pass-trace acts (k + 1)
pass-trace (some a ∷ acts) k = ground (arith, pass-trace acts (k + 2))

pass-looks : (acts : List (Option ℕ)) (k : ℕ) → (m : ℕ) × ((pass never acts k).looks ≡ some m)
unfolding pass
pass-looks [] k = (k, refl)
pass-looks (none ∷ acts) k = pass-looks acts (k + 1)
pass-looks (some a ∷ acts) k = pass-looks acts (k + 2)

-- The passes that a count of the unsigned `m_timesToRun` stands for: none wraps around to 2 ^ 32.
abbrev pub passes : ℕ → ℕ
passes n = if n == 0 then 4294967296 else n

rounds_lem :
    (n : ℕ) (x : Executor) (k fuel : ℕ)
    → x.loop ≡ false
    → x.times_to_run < 4294967296
    → passes x.times_to_run ≡ suc n
    → n < fuel
    → rounds fuel never x k ≡ some (whole_run x.actions_list (suc n))
unfolding rounds whole_run
rounds_lem n x k zero l b e h = absurd (omega arith)
rounds_lem zero x k (suc f) l b e h =
    let (m, looks) = pass-looks x.actions_list k in
    rw (looks, rounds) (ground (arith, pass-trace x.actions_list k))
rounds_lem (suc n) x k (suc f) l b e h =
    let (m, looks) = pass-looks x.actions_list k in
    let left = decrement x.times_to_run in
    let ih =
      rounds_lem n (record x { times_to_run = left }) m f l (omega arith) (ground arith)
        (omega arith) in
    rw (looks, rounds) (ground (arith, pass-trace x.actions_list k, ih))

passes_pos : (n : ℕ) → 0 < passes n
passes_pos n = ground arith

-- Left alone, an executor that does not loop for ever runs its actions `times_to_run` times, or
-- 2 ^ 32 times if that is 0, reports each pass, and then reports that all loops are finished.
pub run_finite :
    (x : Executor) (fuel : ℕ)
    → x.loop ≡ false
    → x.times_to_run < 4294967296
    → passes x.times_to_run ≤ fuel
    → run fuel never x ≡ some (whole_run x.actions_list (passes x.times_to_run))
unfolding run
run_finite x fuel l b h =
    let n = passes x.times_to_run - 1 in
    let e : passes x.times_to_run ≡ suc n = omega (arith, passes_pos x.times_to_run) in
    rw e (rounds_lem n x 0 fuel l b e (omega (arith, passes_pos x.times_to_run)))

rounds_endless : (f : ℕ) (x : Executor) (k : ℕ) → x.loop ≡ true → rounds f never x k ≡ none
unfolding rounds
rounds_endless zero x k l = refl
rounds_endless (suc f) x k l =
    let (m, looks) = pass-looks x.actions_list k in
    let left = decrement x.times_to_run in
    let ih = rounds_endless f (record x { times_to_run = left }) m l in
    rw (looks, rounds) (ground arith)

-- An executor that loops for ever is still running after any number of rounds.
pub run_endless : (fuel : ℕ) (x : Executor) → x.loop ≡ true → run fuel never x ≡ none
unfolding run
run_endless fuel x l = rounds_endless fuel x 0 l
