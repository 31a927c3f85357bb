-- ===== src/ThreadPool/Hazards.antt =====
-- Orders of steps in which src/native/src/lib/threadPool.hpp goes wrong: they are played by a schedule.
use snakesocks.Base.{
  ℕ, ◌≡◌, refl, Bool, true, false, ◌&&◌, Option, none, some, List, [], ◌∷◌, ◌++◌, arith,
  if◌then◌else◌, replicate, Bool-cases, inl, inr,
}
use mathlib.Core.Path.{subst}
use snakesocks.ThreadPool.{
  OwnerAt, idle, go_assign, go_spin, lazy, joining, System, worker_step, owner_step, worker_moves,
  owner_moves, add_task, join_all, Run, begin, run_step, run_call, fresh,
}
use snakesocks.ThreadPool.Handover.{IsStuck}

-- Whose turn it is, or what the owner calls.
data Turn : Type 0 where
  worker_turn owner_turn stop : Turn
  add : List ℕ → Turn

is_idle : OwnerAt → Bool
is_idle o = elim o [ idle ↦ true | _ ↦ false ]

take_turn : Turn → System → Option System
unfolding is_idle
take_turn worker_turn s = worker_step s
take_turn owner_turn s = owner_step s
take_turn stop s =
    if is_idle s.control.owner
    then some (record s { control = record s.control { owner = lazy } })
    else none
take_turn (add f) s =
    if is_idle s.control.owner && s.control.is_waiting
    then some (record s { control = record s.control { owner = go_assign }; handed = f })
    else none

and_then_play : Option System → (System → Option System) → Option System
and_then_play none k = none
and_then_play (some t) k = k t

play : List Turn → System → Option System
unfolding take_turn and_then_play
play [] s = some s
play (turn ∷ turns) s = and_then_play (take_turn turn s) (play turns)

is_idle_to : (o : OwnerAt) → is_idle o ≡ true → o ≡ idle
unfolding is_idle
is_idle_to o = elim o as (λ o. is_idle o ≡ true → o ≡ idle) [
  | idle ↦ λ h. refl
  | _ ↦ λ h. absurd (ground arith)
]

nothing : (t : System) → none ≡ some t → ⊥
nothing t e = ground arith

and_to : (a b : Bool) → a && b ≡ true → (a ≡ true) × (b ≡ true)
and_to true b e = (refl, e)
and_to false b e = absurd (ground arith)

and_then_play-some :
    (o : Option System) (k : System → Option System) (t : System)
    → and_then_play o k ≡ some t
    → (u : System) × (o ≡ some u) × (k u ≡ some t)
unfolding and_then_play
and_then_play-some none k t e = absurd (nothing t e)
and_then_play-some (some u) k t e = (u, refl, e)

-- What is played is a run.
Run-first : (s t u : System) → Run s t → Run t u → Run s u
Run-first s t _ p (begin _) = p
Run-first s t u p (run_step _ v _ q step) = run_step s v u (Run-first s t v p q) step
Run-first s t u p (run_call _ v _ q call) = run_call s v u (Run-first s t v p q) call

turn-Run : (turn : Turn) (s t : System) → take_turn turn s ≡ some t → Run s t
unfolding take_turn
turn-Run worker_turn s t e = run_step s s t (begin s) (worker_moves s t e)
turn-Run owner_turn s t e = run_step s s t (begin s) (owner_moves s t e)
turn-Run stop s t e = elim (Bool-cases (is_idle s.control.owner)) [
  | inl outside ↦
      let same : some (record s { control = record s.control { owner = lazy } }) ≡ some t =
        rw outside at e in
      let reached : record s { control = record s.control { owner = lazy } } ≡ t = cc in
      subst (λ u. Run s u) reached
        (run_call s s _ (begin s) (join_all s (is_idle_to s.control.owner outside)))
  | inr inside ↦ absurd (nothing t (rw inside at e))
]
turn-Run (add f) s t e =
    let u : System = record s { control = record s.control { owner = go_assign }; handed = f } in
    elim (Bool-cases (is_idle s.control.owner && s.control.is_waiting)) [
      | inl found ↦
          let same : some u ≡ some t = rw found at e in
          let reached : u ≡ t = cc in
          let (outside, waiting) = and_to _ _ found in
          subst (λ v. Run s v) reached
            (run_call s s u (begin s) (add_task f s (is_idle_to s.control.owner outside) waiting))
      | inr missed ↦ absurd (nothing t (rw missed at e))
    ]

play-Run : (turns : List Turn) (s t : System) → play turns s ≡ some t → Run s t
unfolding play
play-Run [] s t e = let same : s ≡ t = cc in subst (λ u. Run s u) same (begin s)
play-Run (turn ∷ turns) s t e =
    let (u, first, last) = and_then_play-some (take_turn turn s) (play turns) t e in
    Run-first s u t (turn-Run turn s u first) (play-Run turns u t last)

-- `n` turns of one thread.
abbrev workers : ℕ → List Turn
workers n = replicate n worker_turn

abbrev owner : ℕ → List Turn
owner n = replicate n owner_turn

-- A new worker that has begun may be found waiting before it has taken its first task. A second task
-- then takes the place of the first: after any two, both calls have returned, the worker waits, and the
-- first has not run, nor ever will.
pub fresh-loses :
    (f g : List ℕ)
    → (t : System) × Run (fresh f) t
      × IsStuck t
      × (t.submitted ≡ f ++ g)
      × (t.ran ≡ g)
      × (t.control.owner ≡ idle)
unfolding play worker_step owner_step fresh
fresh-loses f g =
    let early = workers 5 ++ (owner 6 ++ (worker_turn ∷ add g ∷ [])) in
    let late = owner 3 ++ (workers 2 ++ (owner_turn ∷ workers 6)) in
    (_, play-Run (early ++ late) (fresh f) _ refl, (refl, refl), refl, refl, refl)

-- Two ways for the owner to wait for ever, after any task. A task that runs fast enough leaves the owner
-- behind: the worker waits again before the owner looks at `isWaiting`, and addTask does not return. And
-- joinAll that finds the worker between its test of `continueLoop` and `isWaiting = true` does not wake
-- it, and waits for its end.
pub fresh-hangs :
    (f : List ℕ)
    → ((t : System) × Run (fresh f) t × IsStuck t × (t.ran ≡ f) × (t.control.owner ≡ go_spin))
      × ((t : System) × Run (fresh f) t × IsStuck t × (t.ran ≡ f) × (t.control.owner ≡ joining))
unfolding play worker_step owner_step fresh
fresh-hangs f =
    let early = workers 5 ++ (owner 6 ++ workers 6) in
    (
      (
        _,
        play-Run (workers 6 ++ (owner 5 ++ workers 8)) (fresh f) _ refl,
        (refl, refl),
        refl,
        refl,
      ),
      (
        _,
        play-Run (early ++ (stop ∷ (owner 3 ++ workers 3))) (fresh f) _ refl,
        (refl, refl),
        refl,
        refl,
      ),
    )
