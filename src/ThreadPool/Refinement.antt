-- ===== src/ThreadPool/Refinement.antt =====
-- What src/native/src/lib/threadPool.hpp promises of a worker, as a machine of its own: it holds at most one
-- task, and runs it. Every step of the two threads is one of its moves, or none.
use snakesocks.Base.{
  ◌≡◌, ◌⊎◌, inl, inr, ap, sym, Bool, true, Option, none, some, List, ◌++◌, [], if◌then◌else◌, ℕ,
}
use mathlib.Core.Path.{subst}
use snakesocks.ThreadPool.{
  WorkerAt, running, OwnerAt, go_assign, join_assign, System, worker_data, owner_data,
  worker_control, owner_control, worker_step, owner_step, Step, worker_moves, owner_moves, Run,
  begin, run_step, run_call, Call, add_task, join_all, shrink,
}
use snakesocks.ThreadPool.Invariant.{is_sound, owes}
use snakesocks.ThreadPool.Preserved.{
  equal_to, owes-call, is_settled-is_sound, worker_settles, owner_settles, worker_control-is_sound,
  owner_control-is_sound,
}
use snakesocks.ThreadPool.Handover.{moved-some, not_second}
use snakesocks.ThreadPool.Delivery.{IsServing, Run-IsServing}

-- What has been done, and the task that is held.
pub record Server : Type 0 where
  pub finished_tasks : List ℕ
  pub held : Option (List ℕ)

pub data Serves : Server → Server → Type 0 where
  accept :
      (d f : List ℕ)
      → Serves
          (record { finished_tasks = d; held = none })
          (record { finished_tasks = d; held = some f })
  carry_out :
      (d f : List ℕ)
      → Serves
          (record { finished_tasks = d; held = some f })
          (record { finished_tasks = d ++ f; held = none })

pub data ServesMany : Server → Server → Type 0 where
  idles : (a : Server) → ServesMany a a
  serves : (a b c : Server) → ServesMany a b → Serves b c → ServesMany a c

abbrev seen : Bool → System → Server
seen owed s = record { finished_tasks = s.ran; held = if owed then some s.task else none }

-- A worker and its owner, as such a machine.
abbrev pub as_server : System → Server
as_server s = seen (owes s.control) s

abbrev IsMove : Server → Server → Type 0
IsMove a b = (a ≡ b) ⊎ Serves a b

worker_data-Serves :
    (w : WorkerAt) (s : System) (b n : Bool)
    → worker_settles w b n ≡ true
    → IsMove (seen b s) (seen n (worker_data w s))
unfolding worker_data
worker_data-Serves w s b n =
    elim w as (λ w. worker_settles w b n ≡ true → IsMove (seen b s) (seen n (worker_data w s))) [
      | running ↦
          λ h. let (was, left) = not_second b n h in rw (was, left) (inr (carry_out s.ran s.task))
      | _ ↦ λ h. inl (ap (λ x. seen x s) (equal_to b n h))
    ]

owner_data-Serves :
    (o : OwnerAt) (s : System) (b n : Bool)
    → owner_settles o b n ≡ true
    → IsMove (seen b s) (seen n (owner_data o s))
unfolding owner_data
owner_data-Serves o s b n =
    elim o as (λ o. owner_settles o b n ≡ true → IsMove (seen b s) (seen n (owner_data o s))) [
      | go_assign ↦ λ h.
          let (owed, nothing) = not_second n b h in rw (owed, nothing) (inr (accept s.ran s.handed))
      | join_assign ↦
          λ h. let (owed, nothing) = not_second n b h in rw (owed, nothing) (inr (accept s.ran []))
      | _ ↦ λ h. inl (ap (λ x. seen x s) (equal_to b n h))
    ]

Step-Serves :
    (s t : System) → is_sound s.control ≡ true → Step s t → IsMove (as_server s) (as_server t)
unfolding worker_step owner_step
Step-Serves s t sound (worker_moves _ _ e) =
    let (d, c, same) = moved-some (worker_data s.control.worker) s t (worker_control s.control) e in
    let (_, _, settles) = worker_control-is_sound s.control d sound c in
    rw same (worker_data-Serves s.control.worker s (owes s.control) (owes d) settles)
Step-Serves s t sound (owner_moves _ _ e) =
    let (d, c, same) = moved-some (owner_data s.control.owner) s t (owner_control s.control) e in
    let (_, _, settles) = owner_control-is_sound s.control d sound c in
    rw same (owner_data-Serves s.control.owner s (owes s.control) (owes d) settles)

add_move : (a b c : Server) → ServesMany a b → IsMove b c → ServesMany a c
add_move a b c p (inl same) = subst (λ x. ServesMany a x) same p
add_move a b c p (inr move) = serves a b c p move

Call-Serves : (s t : System) → Call s t → as_server s ≡ as_server t
Call-Serves s _ (add_task f _ outside waiting) =
    ap (λ x. seen x s) (sym (owes-call s.control outside).1)
Call-Serves s _ (join_all _ outside) = ap (λ x. seen x s) (sym (owes-call s.control outside).0)
Call-Serves s _ (shrink _ outside waiting) =
    ap (λ x. seen x s) (sym (owes-call s.control outside).2)

-- Whatever the owner of a worker that serves calls, and however the two threads interleave, what is
-- observed of them, the tasks that have run and the one that is held, is a run of a machine that accepts
-- a task only when it holds none and carries out each one that it has accepted.
pub Run-ServesMany : (s t : System) → IsServing s → Run s t → ServesMany (as_server s) (as_server t)
Run-ServesMany s t h (begin _) = idles (as_server s)
Run-ServesMany s u h (run_step _ t _ p step) =
    let (settled, _) = Run-IsServing s t h p in
    add_move (as_server s) (as_server t) (as_server u) (Run-ServesMany s t h p)
      (Step-Serves t u (is_settled-is_sound t.control settled) step)
Run-ServesMany s u h (run_call _ t _ p call) =
    add_move (as_server s) (as_server t) (as_server u) (Run-ServesMany s t h p)
      (inl (Call-Serves t u call))
