-- ===== src/ThreadPool/Invariant.antt =====
-- The invariant of a worker of src/native/src/lib/threadPool.hpp and its owner, as a table over the
-- control states, what is owed to the owner in each of them, and a measure that every step lowers.
use snakesocks.Base.{ℕ, ◌+◌, ◌*◌, Bool, true, false, not, ◌&&◌, ◌||◌, if◌then◌else◌}
use snakesocks.ThreadPool.{
  WorkerAt, starting, announcing, testing, locking, first_turn, flagging, guarding, clearing,
  running, releasing, finished, terminated, OwnerAt, idle, new_inited, new_lock, go_assign, go_try,
  go_unlock, go_spin, lazy, join_stop, join_test, join_assign, join_try, join_unlock, joining,
  joined, Control,
}

-- The owner has unlocked the worker's mutex and does not touch it: at the end of a call, or outside.
abbrev is_resting : OwnerAt → Bool
is_resting o = elim o [
  | idle ↦ true
  | go_spin ↦ true
  | lazy ↦ true
  | join_stop ↦ true
  | join_test ↦ true
  | joining ↦ true
  | _ ↦ false
]

-- It has just woken the worker.
abbrev has_woken : OwnerAt → Bool
has_woken o = elim o [ go_spin ↦ true | joining ↦ true | _ ↦ false ]

-- It has stored a task and is about to wake the worker.
abbrev has_stored : OwnerAt → Bool
has_stored o = elim o [
  | go_try ↦ true
  | go_unlock ↦ true
  | join_try ↦ true
  | join_unlock ↦ true
  | _ ↦ false
]

abbrev pub is_new : OwnerAt → Bool
is_new o = elim o [ new_inited ↦ true | new_lock ↦ true | _ ↦ false ]

-- It has not yet told the worker to stop.
abbrev before_stop : OwnerAt → Bool
before_stop o = elim o [
  | join_stop ↦ false
  | join_test ↦ false
  | join_assign ↦ false
  | join_try ↦ false
  | join_unlock ↦ false
  | joining ↦ false
  | joined ↦ false
  | _ ↦ true
]

-- A worker that has taken its first task, or waits for another one.
unfoldable pub is_settled : Control → Bool
is_settled c =
    let running_now = not c.is_waiting && c.working_symbol && is_resting c.owner in
    let between = not c.is_waiting && not c.working_symbol && is_resting c.owner in
    let table : Bool = elim c.worker [
      | guarding ↦
          c.is_waiting
          && (if c.working_symbol
              then not (is_new c.owner) && not (elim c.owner [ joined ↦ true | _ ↦ false ])
              else has_woken c.owner)
      | clearing ↦ c.is_waiting && c.working_symbol && has_woken c.owner
      | running ↦ running_now
      | releasing ↦ running_now
      | testing ↦ between
      | locking ↦ between
      | first_turn ↦ running_now
      | flagging ↦ running_now
      | finished ↦
          not c.is_waiting
          && not c.working_symbol
          && not c.continue_loop
          && not (before_stop c.owner)
          && not (has_stored c.owner)
          && not (elim c.owner [ join_assign ↦ true | _ ↦ false ])
      | _ ↦ false
    ] in
    table
    && not c.first_loop
    && c.has_task
    && (if before_stop c.owner then c.continue_loop else true)

-- A new worker, up to its first task.
unfoldable pub is_beginning : Control → Bool
is_beginning c =
    let early =
      is_new c.owner && c.init_symbol && c.init_symbol_inited && c.first_loop && not c.is_waiting in
    let late : Bool = elim c.owner [
      | new_inited ↦ c.working_symbol && c.init_symbol_inited && not c.init_symbol
      | new_lock ↦ c.working_symbol && not c.init_symbol
      | go_assign ↦ c.working_symbol
      | go_try ↦ c.working_symbol && c.has_task
      | go_unlock ↦ c.working_symbol && c.has_task
      | go_spin ↦ not c.working_symbol && c.has_task
      | idle ↦ not c.working_symbol && c.has_task
      | _ ↦ false
    ] in
    let outside =
      elim c.owner [ new_inited ↦ true | _ ↦ false ]
      && not c.init_symbol_inited
      && c.first_loop
      && not c.working_symbol
      && not c.is_waiting in
    let table : Bool = elim c.worker [
      | starting ↦ outside && not c.init_symbol
      | announcing ↦ outside && c.init_symbol
      | testing ↦ early && not c.working_symbol
      | locking ↦ early && not c.working_symbol
      | first_turn ↦ early && c.working_symbol
      | flagging ↦ late && not c.first_loop && not c.is_waiting
      | guarding ↦ late && not c.first_loop && c.is_waiting
      | clearing ↦
          (elim c.owner [ idle ↦ true | go_spin ↦ true | _ ↦ false ])
          && c.working_symbol
          && c.is_waiting
          && c.has_task
          && not c.first_loop
      | _ ↦ false
    ] in
    table && c.continue_loop

unfoldable pub is_sound : Control → Bool
unfolding is_settled is_beginning
is_sound c = is_settled c || is_beginning c

-- A task has been stored that has not run yet.
unfoldable pub owes : Control → Bool
owes c = elim c.worker [
  | guarding ↦ if c.working_symbol then has_stored c.owner else true
  | flagging ↦ if c.working_symbol then has_stored c.owner else true
  | clearing ↦ true
  | running ↦ true
  | _ ↦ false
]

-- How many steps the owner has left in its call, and the worker until it waits.
abbrev pub owner_rank : OwnerAt → ℕ
owner_rank o = elim o [
  | idle ↦ 0
  | go_spin ↦ 1
  | go_unlock ↦ 2
  | go_try ↦ 3
  | go_assign ↦ 4
  | new_lock ↦ 5
  | new_inited ↦ 6
  | joined ↦ 0
  | joining ↦ 1
  | join_unlock ↦ 2
  | join_try ↦ 3
  | join_assign ↦ 4
  | join_test ↦ 5
  | join_stop ↦ 6
  | lazy ↦ 7
]

abbrev pub worker_rank : Bool → WorkerAt → ℕ
worker_rank locked w = elim w [
  | guarding ↦ if locked then 0 else 8
  | flagging ↦ if locked then 1 else 9
  | first_turn ↦ 2
  | locking ↦ 3
  | testing ↦ 4
  | releasing ↦ 5
  | running ↦ 6
  | clearing ↦ 7
  | announcing ↦ 5
  | starting ↦ 6
  | finished ↦ 0
  | terminated ↦ 0
]

unfoldable pub measure : Control → ℕ
measure c = 20 * owner_rank c.owner + worker_rank c.working_symbol c.worker
