-- ===== src/ThreadPool/Pool.antt =====
-- The members of src/native/src/lib/threadPool.hpp that choose among the workers: addTask, newWorker,
-- try_shrink, joinAll and size. Each of the workers is a system of its own with the owner.
use snakesocks.Base.{
  ℕ, suc, ◌+◌, ◌*◌, ◌≤◌, ◌<◌, ◌≡◌, ◌⊎◌, inl, inr, refl, ap, sym, ◌∙◌, Bool, true, false, Option,
  none, some, List, [], ◌∷◌, ◌++◌, arith, length, length-append, leb, if◌then◌else◌, Bool-cases,
}
use snakesocks.Io.{Result, ok, thrown, overrun}
use snakesocks.ThreadPool.{go_assign, System, fresh}

-- `workers` is a list of pointers.
pub record Pool : Type 0 where
  pub usual_size : ℕ
  pub curr_size : ℕ
  pub workers : List System

unfoldable pub new_pool : ℕ → Pool
new_pool usual_size = record { usual_size = usual_size; curr_size = 0; workers = [] }

-- The call of `go` that begins.
abbrev pub go : List ℕ → System → System
go f s = record s { control = record s.control { owner = go_assign }; handed = f }

-- The loop of `addTask`: the task goes to the first worker found waiting.
unfoldable pub offer : List ℕ → List System → Option (List System)
offer f [] = none
offer f (pwk ∷ others) =
    let later : Option (List System) = elim (offer f others) [
      | none ↦ none
      | some given ↦ some (pwk ∷ given)
    ] in
    if pwk.control.is_waiting then some (go f pwk ∷ others) else later

abbrev pub any_waiting : List System → Bool
any_waiting [] = false
any_waiting (pwk ∷ others) =
    let later = any_waiting others in if pwk.control.is_waiting then true else later

-- The loop over `workers` goes on from a node that it has removed, once it has joined a worker.
unfoldable pub try_shrink : Pool → Result Pool
try_shrink pool =
    if leb pool.curr_size (pool.usual_size * 3)
    then ok pool
    else if any_waiting pool.workers
    then (if leb pool.curr_size pool.usual_size then ok pool else overrun)
    else ok pool

-- `newWorker()->go(f)`, up to where its worker and the owner go on by themselves.
unfoldable pub new_worker : List ℕ → Pool → Result Pool
unfolding try_shrink
new_worker f pool = elim (try_shrink pool) [
  | ok p ↦ ok (record p { workers = p.workers ++ (fresh f ∷ []); curr_size = p.curr_size + 1 })
  | thrown e ↦ thrown e
  | overrun ↦ overrun
]

-- `pool` is what the workers have become by the time that none of `seen` was found waiting.
unfoldable pub add_task_to : List ℕ → Pool → Pool → Result Pool
unfolding offer new_worker
add_task_to f seen pool = elim (offer f seen.workers) [
  | some given ↦ ok (record seen { workers = given })
  | none ↦ new_worker f pool
]

-- Once all workers have ended.
unfoldable pub join_all_of : Pool → Pool
join_all_of pool = record pool { workers = []; curr_size = 0 }

unfoldable pub size : Pool → ℕ
size pool = pool.curr_size

-- The size that is kept beside the list is that of the list.
abbrev pub IsPool : Pool → Type 0
IsPool pool = size pool ≡ length pool.workers

-- One worker of the list has got the task, and the others are as they were.
pub data Given (f : List ℕ) : List System → List System → Type 0 where
  this :
      (pwk : System) (others : List System)
      → pwk.control.is_waiting ≡ true
      → Given f (pwk ∷ others) (go f pwk ∷ others)
  other :
      (pwk : System) (others given : List System)
      → pwk.control.is_waiting ≡ false
      → Given f others given
      → Given f (pwk ∷ others) (pwk ∷ given)
  hired : Given f [] (fresh f ∷ [])

offer-none :
    (f : List ℕ) (workers : List System)
    → any_waiting workers ≡ false
    → Given f workers (workers ++ (fresh f ∷ []))
offer-none f [] h = hired
offer-none f (pwk ∷ others) h = elim (Bool-cases pwk.control.is_waiting) [
  | inl waiting ↦ absurd (ground arith)
  | inr busy ↦ other pwk others _ busy (offer-none f others (rw busy at h))
]

offer-cases :
    (f : List ℕ) (workers : List System)
    → ((given : List System) × (offer f workers ≡ some given)
        × Given f workers given
        × (length given ≡ length workers))
      ⊎ ((offer f workers ≡ none) × (any_waiting workers ≡ false))
unfolding offer
offer-cases f [] = inr (refl, refl)
offer-cases f (pwk ∷ others) = elim (Bool-cases pwk.control.is_waiting) [
  | inl waiting ↦ inl (go f pwk ∷ others, simp waiting refl, this pwk others waiting, refl)
  | inr busy ↦ elim (offer-cases f others) [
    | inl (given, e, h, n) ↦
        inl (pwk ∷ given, simp (busy, e) refl, other pwk others given busy h, ap suc n)
    | inr (e, h) ↦ inr (simp (busy, e) refl, simp (busy, h) refl)
  ]
]

try_shrink-busy : (pool : Pool) → any_waiting pool.workers ≡ false → try_shrink pool ≡ ok pool
unfolding try_shrink
try_shrink-busy pool h = ground arith

-- In a pool whose workers do not change meanwhile, addTask gives the task to exactly one worker: the
-- first one that waits, or, if none does, a new one behind all others. It does not leave the list, and the
-- size stays that of the list.
pub add_task_to-gives :
    (f : List ℕ) (pool : Pool)
    → IsPool pool
    → (next : Pool) × (add_task_to f pool pool ≡ ok next)
      × Given f pool.workers next.workers
      × IsPool next
      × (size pool ≤ size next)
      × (size next ≤ size pool + 1)
unfolding add_task_to new_worker size
add_task_to-gives f pool h = elim (offer-cases f pool.workers) [
  | inl (given, e, gives, n) ↦ (
    record pool { workers = given },
    rw (add_task_to, e) refl,
    gives,
    h ∙ sym n,
    omega arith,
    omega arith,
  )
  | inr (e, busy) ↦ (
    record pool { workers = pool.workers ++ (fresh f ∷ []); curr_size = pool.curr_size + 1 },
    rw (add_task_to, e, new_worker, try_shrink-busy pool busy) refl,
    offer-none f pool.workers busy,
    omega (arith, length-append pool.workers (fresh f ∷ []), h),
    omega arith,
    omega arith,
  )
]

try_shrink-overrun :
    (pool : Pool)
    → pool.usual_size * 3 < pool.curr_size
    → any_waiting pool.workers ≡ true
    → try_shrink pool ≡ overrun
unfolding try_shrink
try_shrink-overrun pool many waiting = ground arith

-- Once there are more than three times the usual number of workers, a worker that has come to wait since
-- none was found waiting makes newWorker go on from a node of the list that it has removed.
pub new_worker-overrun :
    (f : List ℕ) (pool : Pool)
    → pool.usual_size * 3 < pool.curr_size
    → any_waiting pool.workers ≡ true
    → new_worker f pool ≡ overrun
unfolding new_worker
new_worker-overrun f pool many waiting = rw (new_worker, try_shrink-overrun pool many waiting) refl
