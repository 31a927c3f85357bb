-- ===== src/ThreadPool.antt =====
-- The class ThreadPool of src/native/src/lib/threadPool.hpp: one worker thread and the thread that owns
-- the pool, in steps between which the other thread may run. A std::mutex is modelled as what it is on
-- a plain pthread mutex: locked or not, whoever locks or unlocks it.
pub mod Delivery
pub mod Handover
pub mod Hazards
pub mod Invariant
pub mod Pool
pub mod Preserved
pub mod Refinement
pub mod States
use snakesocks.Base.{
  ℕ, ◌+◌, ◌*◌, ◌≡◌, Bool, true, false, Option, none, some, List, [], ◌∷◌, ◌++◌, if◌then◌else◌,
}

-- Where the worker is in `workerFunc`, by what it does next: `initSymbol.try_lock`, the assignment to
-- `initSymbolInited`, the test of `continueLoop`, the first `workingSymbol.lock`, the block under
-- `if(firstLoop)`, `isWaiting = true`, the lock of `lg`, `isWaiting = false`, `task()`, the unlock of
-- `lg`. `terminated`: it has called an empty std::function.
pub data WorkerAt : Type 0 where
  starting announcing testing locking first_turn flagging : WorkerAt
  guarding clearing running releasing finished terminated : WorkerAt

-- Where the owner is: outside, in `newWorker` before each of its two waits, in `go` before each of its
-- four lines, before `lazy_stop`, in `join` before its assignment, its test of `isWaiting`, the three
-- lines of the other `go`, and `m_thread.join`, and after it.
pub data OwnerAt : Type 0 where
  idle new_inited new_lock go_assign go_try go_unlock go_spin : OwnerAt
  lazy join_stop join_test join_assign join_try join_unlock joining joined : OwnerAt

-- The members of `worker` that steer the two threads; `init_symbol` and `working_symbol` tell
-- whether the mutex is locked, `has_task` whether `task` holds a function.
pub record Control : Type 0 where
  pub worker : WorkerAt
  pub owner : OwnerAt
  pub is_waiting : Bool
  pub init_symbol : Bool
  pub init_symbol_inited : Bool
  pub continue_loop : Bool
  pub first_loop : Bool
  pub working_symbol : Bool
  pub has_task : Bool

-- A line of `workerFunc`; `none` where it has to wait, or has ended.
unfoldable pub worker_control : Control → Option Control
worker_control c = elim c.worker [
  | starting ↦ some (record c { worker = announcing; init_symbol = true })
  | announcing ↦ some (record c { worker = testing; init_symbol_inited = true })
  | testing ↦ some (record c { worker = if c.continue_loop then locking else finished })
  | locking ↦
      if c.working_symbol
      then none
      else some (record c { worker = first_turn; working_symbol = true })
  | first_turn ↦ some (
      if c.first_loop
      then record c { worker = flagging; first_loop = false; init_symbol = false }
      else record c { worker = flagging })
  | flagging ↦ some (record c { worker = guarding; is_waiting = true })
  | guarding ↦
      if c.working_symbol
      then none
      else some (record c { worker = clearing; working_symbol = true })
  | clearing ↦ some (record c { worker = running; is_waiting = false })
  | running ↦ some (record c { worker = if c.has_task then releasing else terminated })
  | releasing ↦ some (record c { worker = testing; working_symbol = false })
  | finished ↦ none
  | terminated ↦ none
]

-- A line of `newWorker`, `go` or `join`. Where `try_lock` finds the mutex unlocked it locks it, which
-- leaves it locked either way.
unfoldable pub owner_control : Control → Option Control
owner_control c = elim c.owner [
  | idle ↦ none
  | new_inited ↦ if c.init_symbol_inited then some (record c { owner = new_lock }) else none
  | new_lock ↦
      if c.init_symbol then none else some (record c { owner = go_assign; init_symbol = true })
  | go_assign ↦ some (record c { owner = go_try; has_task = true })
  | go_try ↦ some (record c { owner = go_unlock; working_symbol = true })
  | go_unlock ↦ some (record c { owner = go_spin; working_symbol = false })
  | go_spin ↦ if c.is_waiting then none else some (record c { owner = idle })
  | lazy ↦ some (record c { owner = join_stop; continue_loop = false })
  | join_stop ↦ some (record c { owner = join_test; continue_loop = false })
  | join_test ↦ some (record c { owner = if c.is_waiting then join_assign else joining })
  | join_assign ↦ some (record c { owner = join_try; has_task = true })
  | join_try ↦ some (record c { owner = join_unlock; working_symbol = true })
  | join_unlock ↦ some (record c { owner = joining; working_symbol = false })
  | joining ↦ elim c.worker [ finished ↦ some (record c { owner = joined }) | _ ↦ none ]
  | joined ↦ none
]

-- A task is the list of what it does, empty for the `[](){}` of `join`. `handed` is the argument of the
-- call of `go`, `task` the member, `submitted` what has been assigned to it so far, and `ran` what the
-- worker has run.
pub record System : Type 0 where
  pub control : Control
  pub handed : List ℕ
  pub task : List ℕ
  pub submitted : List ℕ
  pub ran : List ℕ

-- `task()` adds to what has run.
unfoldable pub worker_data : WorkerAt → System → System
worker_data at_ s = elim at_ [ running ↦ record s { ran = s.ran ++ s.task } | _ ↦ s ]

-- `task = f` and `task = [](){}`.
unfoldable pub owner_data : OwnerAt → System → System
owner_data at_ s = elim at_ [
  | go_assign ↦ record s { task = s.handed; submitted = s.submitted ++ s.handed }
  | join_assign ↦ record s { task = [] }
  | _ ↦ s
]

abbrev pub moved : (System → System) → System → Option Control → Option System
moved f s none = none
moved f s (some c) = some (record (f s) { control = c })

unfoldable pub worker_step : System → Option System
unfolding worker_control worker_data
worker_step s = moved (worker_data s.control.worker) s (worker_control s.control)

unfoldable pub owner_step : System → Option System
unfolding owner_control owner_data
owner_step s = moved (owner_data s.control.owner) s (owner_control s.control)

-- One step of either thread within the calls that have begun.
pub data Step : System → System → Type 0 where
  worker_moves : (s t : System) → worker_step s ≡ some t → Step s t
  owner_moves : (s t : System) → owner_step s ≡ some t → Step s t

-- The owner, outside of all calls, begins one: `addTask` if it finds the worker waiting, `joinAll`, or
-- the `join` in `try_shrink`, also if it finds the worker waiting.
pub data Call : System → System → Type 0 where
  add_task :
      (f : List ℕ) (s : System)
      → s.control.owner ≡ idle
      → s.control.is_waiting ≡ true
      → Call s (record s { control = record s.control { owner = go_assign }; handed = f })
  join_all :
      (s : System)
      → s.control.owner ≡ idle
      → Call s (record s { control = record s.control { owner = lazy } })
  shrink :
      (s : System)
      → s.control.owner ≡ idle
      → s.control.is_waiting ≡ true
      → Call s (record s { control = record s.control { owner = join_stop } })

-- Any number of steps, and of steps and calls.
pub data Steps : System → System → Type 0 where
  rest : (s : System) → Steps s s
  then_step : (s t u : System) → Steps s t → Step t u → Steps s u

pub data Run : System → System → Type 0 where
  begin : (s : System) → Run s s
  run_step : (s t u : System) → Run s t → Step t u → Run s u
  run_call : (s t u : System) → Run s t → Call t u → Run s u

-- What `new worker()` constructs, with `newWorker()->go(f)` under way.
unfoldable pub fresh : List ℕ → System
fresh f = record {
  control = record {
    worker = starting;
    owner = new_inited;
    is_waiting = false;
    init_symbol = false;
    init_symbol_inited = false;
    continue_loop = true;
    first_loop = true;
    working_symbol = false;
    has_task = false;
  };
  handed = f;
  task = [];
  submitted = [];
  ran = [];
}
