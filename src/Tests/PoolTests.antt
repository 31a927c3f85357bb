-- ===== src/Tests/PoolTests.antt =====
-- The class ThreadPool of src/native/src/lib/threadPool.hpp on concrete inputs.
use snakesocks.Base.{
  List, Option, none, some, ℕ, zero, suc, ◌+◌, ◌≤◌, ◌≡◌, refl, true, false, [], ◌∷◌, inl, inr,
}
use snakesocks.Io.{ok}
use snakesocks.ThreadPool.{
  guarding, idle, go_assign, go_spin, joining, System, worker_step, owner_step, worker_moves,
  owner_moves, add_task, Steps, rest, Run, begin, run_call, fresh,
}
use snakesocks.ThreadPool.Handover.{IsStuck, count}
use snakesocks.ThreadPool.Invariant.{is_settled, owes}
use snakesocks.ThreadPool.Delivery.{
  IsServing, moves_or_waits, steps-first, Run-IsServing, fresh-delivers, add_task-delivers,
  threads_stop,
}
use snakesocks.ThreadPool.Hazards.{fresh-loses, fresh-hangs}
use snakesocks.ThreadPool.Refinement.{ServesMany, as_server, Run-ServesMany}
use snakesocks.Listener.{accept_rounds, accepted_in, Handed, accept_rounds-Handed}
use snakesocks.ThreadPool.Pool.{Pool, Given, IsPool, size, add_task_to, add_task_to-gives}

-- At most `n` steps, the worker's first.
unfoldable walk : (n : ℕ) (s : System) → (t : System) × Steps s t
walk zero s = (s, rest s)
walk (suc n) s = elim (moves_or_waits (worker_step s)) [
  | inl (t, e) ↦ let (u, p) = walk n t in (u, steps-first s t u (worker_moves s t e) p)
  | inr ew ↦ elim (moves_or_waits (owner_step s)) [
    | inl (t, e) ↦ let (u, p) = walk n t in (u, steps-first s t u (owner_moves s t e) p)
    | inr eo ↦ (s, rest s)
  ]
]

abbrev first_walk : (t : System) × Steps (fresh (5 ∷ [])) t
first_walk = walk 40 (fresh (5 ∷ []))

fresh-delivers_example : (first_walk.0.ran ≡ 5 ∷ []) × (count first_walk.1 ≤ 149)
unfolding walk worker_step owner_step fresh
fresh-delivers_example = fresh-delivers (5 ∷ []) first_walk.0 first_walk.1 (refl, refl)

-- A worker that has run one task and waits.
abbrev served : System
served = record {
  control = record {
    worker = guarding;
    owner = idle;
    is_waiting = true;
    init_symbol = true;
    init_symbol_inited = true;
    continue_loop = true;
    first_loop = false;
    working_symbol = true;
    has_task = true;
  };
  handed = 3 ∷ [];
  task = 3 ∷ [];
  submitted = 3 ∷ [];
  ran = 3 ∷ [];
}

served-IsServing : IsServing served
unfolding is_settled owes
served-IsServing = (refl, refl)

abbrev asked : System
asked = record served { control = record served.control { owner = go_assign }; handed = 7 ∷ [] }

abbrev second_walk : (t : System) × Steps asked t
second_walk = walk 40 asked

add_task-delivers_example : (second_walk.0.ran ≡ 3 ∷ 7 ∷ []) × (count second_walk.1 ≤ 149)
unfolding walk worker_step owner_step
add_task-delivers_example =
    add_task-delivers (7 ∷ []) served second_walk.0 served-IsServing refl refl second_walk.1
      (refl, refl)

Run-IsServing_example : IsServing asked
Run-IsServing_example =
    Run-IsServing served asked served-IsServing
      (run_call served served asked (begin served) (add_task (7 ∷ []) served refl refl))

threads_stop_example :
    ((t : System) × Steps (fresh (5 ∷ [])) t × IsStuck t × (t.ran ≡ 5 ∷ []))
    × ((t : System) × Steps served t × IsStuck t × (t.ran ≡ t.submitted))
threads_stop_example = threads_stop (5 ∷ []) served served-IsServing

fresh-loses_example :
    (t : System) × Run (fresh (5 ∷ [])) t
    × IsStuck t
    × (t.submitted ≡ 5 ∷ 6 ∷ [])
    × (t.ran ≡ 6 ∷ [])
    × (t.control.owner ≡ idle)
fresh-loses_example = fresh-loses (5 ∷ []) (6 ∷ [])

fresh-hangs_example :
    ((t : System) × Run (fresh (5 ∷ [])) t
      × IsStuck t
      × (t.ran ≡ 5 ∷ [])
      × (t.control.owner ≡ go_spin))
    × ((t : System) × Run (fresh (5 ∷ [])) t
        × IsStuck t
        × (t.ran ≡ 5 ∷ [])
        × (t.control.owner ≡ joining))
fresh-hangs_example = fresh-hangs (5 ∷ [])

Run-ServesMany_example : ServesMany (as_server served) (as_server asked)
Run-ServesMany_example =
    Run-ServesMany served asked served-IsServing
      (run_call served served asked (begin served) (add_task (7 ∷ []) served refl refl))

abbrev two_workers : Pool
two_workers = record { usual_size = 4; curr_size = 2; workers = first_walk.0 ∷ served ∷ [] }

add_task_to-gives_example :
    (next : Pool) × (add_task_to (8 ∷ []) two_workers two_workers ≡ ok next)
    × Given (8 ∷ []) (first_walk.0 ∷ served ∷ []) next.workers
    × IsPool next
    × (size two_workers ≤ size next)
    × (size next ≤ size two_workers + 1)
unfolding size
add_task_to-gives_example = add_task_to-gives (8 ∷ []) two_workers refl

-- A script of what accept returns.
abbrev scripted : ℕ → List (Option ℕ) → Option ℕ × List (Option ℕ)
scripted listenfd [] = (none, [])
scripted listenfd (o ∷ os) = (o, os)

abbrev arrivals : List (Option ℕ)
arrivals = some 9 ∷ none ∷ some 11 ∷ []

accept_rounds-Handed_example :
    (next : Pool) × (v : List (Option ℕ)) × (accept_rounds
        (List (Option ℕ))
        scripted
        (λ p. p)
        (λ p. p)
        3
        4
        two_workers
        arrivals
      ≡ (ok next, v))
    × Handed (List (Option ℕ)) scripted (λ p. p) (λ p. p) (9 ∷ 11 ∷ []) two_workers next
    × IsPool next
unfolding accepted_in size
accept_rounds-Handed_example =
    accept_rounds-Handed (List (Option ℕ)) scripted (λ p. p) (λ p. p) (λ pool h. h) (λ pool. refl) 3
      4 two_workers arrivals refl
