-- ===== src/ThreadPool/Delivery.antt =====
-- Every task that src/native/src/lib/threadPool.hpp is given reaches its worker: the statements on all
-- orders in which a worker and its owner take their steps.
use snakesocks.Base.{
  ℕ, zero, suc, ◌≤◌, ◌<◌, ◌≡◌, refl, sym, true, Option, none, some, List, [], ◌++◌, arith,
  append-nil, ◌⊎◌, inl, inr,
}
use snakesocks.ThreadPool.{
  idle, go_assign, System, worker_step, owner_step, Step, worker_moves, owner_moves, Call, add_task,
  join_all, shrink, Steps, rest, then_step, Run, begin, run_step, run_call, fresh,
}
use snakesocks.ThreadPool.Invariant.{is_sound, is_settled, is_beginning, owes, measure}
use snakesocks.ThreadPool.Preserved.{
  measure-bound, is_settled-is_sound, settled-step, settled-call, owes-call,
}
use snakesocks.ThreadPool.Handover.{
  IsAccounted, IsStuck, HandsOver, stuck-ran, handed_over, count, steps-kept, Step-kept,
  worker_step-kept, owner_step-kept,
}

-- A worker that has taken its first task, or waits for another, with what it was given accounted for.
abbrev pub IsServing : System → Type 0
IsServing s = (is_settled s.control ≡ true) × IsAccounted s

Step-IsServing : (s t : System) → IsServing s → Step s t → IsServing t
Step-IsServing s t (settled, acc) (worker_moves _ _ e) =
    let (_, acc', _, moves) = worker_step-kept s t (is_settled-is_sound s.control settled) acc e in
    (settled-step s.control t.control settled (inl moves), acc')
Step-IsServing s t (settled, acc) (owner_moves _ _ e) =
    let (_, acc', _, moves) = owner_step-kept s t (is_settled-is_sound s.control settled) acc e in
    (settled-step s.control t.control settled (inr moves), acc')

Call-IsServing : (s t : System) → IsServing s → Call s t → IsServing t
Call-IsServing s _ (settled, acc) (add_task f _ outside waiting) =
    (((settled-call s.control settled outside).1 waiting).0, rw (owes-call s.control outside).1 acc)
Call-IsServing s _ (settled, acc) (join_all _ outside) =
    ((settled-call s.control settled outside).0, rw (owes-call s.control outside).0 acc)
Call-IsServing s _ (settled, acc) (shrink _ outside waiting) =
    (((settled-call s.control settled outside).1 waiting).1, rw (owes-call s.control outside).2 acc)

-- Once a worker has taken its first task or waits for another one, and if what has been given to it until then is
-- what it has run, in that order, and at most one task that it is still to run, this stays so: whatever calls of addTask,
-- joinAll and try_shrink follow and however the two threads interleave, each task is run once and in the order in
-- which they were given.
pub Run-IsServing : (s t : System) → IsServing s → Run s t → IsServing t
Run-IsServing s t h (begin _) = h
Run-IsServing s u h (run_step _ t _ p step) = Step-IsServing t u (Run-IsServing s t h p) step
Run-IsServing s u h (run_call _ t _ p call) = Call-IsServing t u (Run-IsServing s t h p) call

fresh-is_sound : (f : List ℕ) → is_sound (fresh f).control ≡ true
unfolding fresh is_sound is_settled is_beginning
fresh-is_sound f = refl

fresh-IsAccounted : (f : List ℕ) → IsAccounted (fresh f)
unfolding fresh owes
fresh-IsAccounted f = refl

fresh-HandsOver : (f : List ℕ) → HandsOver [] f (fresh f)
unfolding fresh
fresh-HandsOver f = (refl, refl)

-- A new worker and the owner that hands it its first task take at most 149 steps, in whatever order,
-- before they can go no further, and then that task has run, once, and no other.
pub fresh-delivers :
    (f : List ℕ) (t : System) (p : Steps (fresh f) t) → IsStuck t → (t.ran ≡ f) × (count p ≤ 149)
fresh-delivers f t p stuck =
    let (_, _, few) = steps-kept (fresh f) t p (fresh-is_sound f) (fresh-IsAccounted f) in
    (
      handed_over [] f (fresh f) t (fresh-is_sound f) (fresh-IsAccounted f) (fresh-HandsOver f) p
          stuck,
      omega (arith, measure-bound (fresh f).control),
    )

-- A task that is added to a worker found waiting, once it has taken its first, runs behind all those
-- before it, after at most 149 steps in whatever order, though the owner may not return.
pub add_task-delivers :
    (f : List ℕ) (s t : System)
    → IsServing s
    → s.control.owner ≡ idle
    → s.control.is_waiting ≡ true
    → (p : Steps (record s { control = record s.control { owner = go_assign }; handed = f }) t)
    → IsStuck t
    → (t.ran ≡ s.submitted ++ f) × (count p ≤ 149)
add_task-delivers f s t serving outside waiting p stuck =
    let u : System = record s { control = record s.control { owner = go_assign }; handed = f } in
    let (settled, acc) = Call-IsServing s u serving (add_task f s outside waiting) in
    let sound = is_settled-is_sound u.control settled in
    let (_, _, few) = steps-kept u t p sound acc in
    (
      handed_over s.submitted f u t sound acc (refl, sym (append-nil s.submitted)) p stuck,
      omega (arith, measure-bound u.control),
    )

abbrev pub moves_or_waits : (o : Option System) → ((t : System) × (o ≡ some t)) ⊎ (o ≡ none)
moves_or_waits none = inr refl
moves_or_waits (some t) = inl (t, refl)

pub steps-first : (s t u : System) → Step s t → Steps t u → Steps s u
steps-first s t _ step (rest _) = then_step s s t (rest s) step
steps-first s t u step (then_step _ v _ p last) = then_step s v u (steps-first s t v step p) last

-- The two threads until neither can go on, the worker first.
runs_out :
    (fuel : ℕ) (s : System)
    → is_sound s.control ≡ true
    → IsAccounted s
    → measure s.control < fuel
    → (t : System) × Steps s t × IsStuck t
runs_out zero s sound acc h = absurd (omega arith)
runs_out (suc fuel) s sound acc h = elim (moves_or_waits (worker_step s)) [
  | inl (t, e) ↦
      let (sound', acc', less) = Step-kept s t sound acc (worker_moves s t e) in
      let (u, p, stuck) = runs_out fuel t sound' acc' (omega arith) in
      (u, steps-first s t u (worker_moves s t e) p, stuck)
  | inr ew ↦ elim (moves_or_waits (owner_step s)) [
    | inl (t, e) ↦
        let (sound', acc', less) = Step-kept s t sound acc (owner_moves s t e) in
        let (u, p, stuck) = runs_out fuel t sound' acc' (omega arith) in
        (u, steps-first s t u (owner_moves s t e) p, stuck)
    | inr eo ↦ (s, rest s, (ew, eo))
  ]
]

-- From a new worker with its first task, and from any worker that serves, whatever its owner is doing,
-- the two threads can come to where neither goes on without a new call, and then everything that was
-- given to the worker has run.
pub threads_stop :
    (f : List ℕ) (s : System)
    → IsServing s
    → ((t : System) × Steps (fresh f) t × IsStuck t × (t.ran ≡ f))
      × ((t : System) × Steps s t × IsStuck t × (t.ran ≡ t.submitted))
threads_stop f s (settled, acc) =
    let (t, p, stuck) =
      runs_out (suc (measure (fresh f).control)) (fresh f) (fresh-is_sound f) (fresh-IsAccounted f)
        (omega arith) in
    let sound = is_settled-is_sound s.control settled in
    let (u, q, stuck') = runs_out (suc (measure s.control)) s sound acc (omega arith) in
    (
      (t, p, stuck, (fresh-delivers f t p stuck).0),
      (
        u,
        q,
        stuck',
        stuck-ran u (steps-kept s u q sound acc).0 (steps-kept s u q sound acc).1 stuck',
      ),
    )
