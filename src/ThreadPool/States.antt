-- ===== src/ThreadPool/States.antt =====
-- The control states that a worker of src/native/src/lib/threadPool.hpp and its owner reach: a table, and
-- that every step stays in it. They are finitely many, so what is said of a step is a test on all of
-- them, which the kernel runs.
use snakesocks.Base.{
  ℕ, zero, suc, ◌<◌, ◌≡◌, Bool, true, false, List, [], ◌∷◌, arith, length, get_or, if◌then◌else◌,
  Bool-cases, inl, inr,
}
use snakesocks.ThreadPool.{
  WorkerAt, starting, announcing, testing, locking, first_turn, flagging, guarding, clearing,
  running, releasing, finished, terminated, OwnerAt, idle, new_inited, new_lock, go_assign, go_try,
  go_unlock, go_spin, lazy, join_stop, join_test, join_assign, join_try, join_unlock, joining,
  joined, Control,
}

unfoldable pub each {ℓ} : {A : Type ℓ} → (A → Bool) → List A → Bool
each p [] = true
each p (x ∷ xs) = if p x then each p xs else false

each-head {ℓ} :
    {A : Type ℓ} (p : A → Bool) (x : A) (xs : List A)
    → each p (x ∷ xs) ≡ true
    → (p x ≡ true) × (each p xs ≡ true)
unfolding each
each-head p x xs e = elim (Bool-cases (p x)) [
  | inl holds ↦ (holds, rw holds at e)
  | inr fails ↦ absurd (ground arith)
]

each-at {ℓ} :
    {A : Type ℓ} (p : A → Bool) (xs : List A) (i : ℕ) (d : A)
    → each p xs ≡ true
    → i < length xs
    → p (get_or xs i d) ≡ true
each-at p [] i d e h = absurd (omega arith)
each-at p (x ∷ xs) zero d e h = (each-head p x xs e).0
each-at p (x ∷ xs) (suc i) d e h = each-at p xs i d (each-head p x xs e).1 (omega arith)

abbrev workers : List WorkerAt
workers =
    starting ∷ announcing ∷ testing ∷ locking ∷ first_turn ∷ flagging ∷ guarding ∷ clearing
    ∷ running ∷ releasing ∷ finished ∷ terminated ∷ []

workers-each : (q : WorkerAt → Bool) (w : WorkerAt) → each q workers ≡ true → q w ≡ true
workers-each q starting h = each-at q workers 0 starting h (omega arith)
workers-each q announcing h = each-at q workers 1 starting h (omega arith)
workers-each q testing h = each-at q workers 2 starting h (omega arith)
workers-each q locking h = each-at q workers 3 starting h (omega arith)
workers-each q first_turn h = each-at q workers 4 starting h (omega arith)
workers-each q flagging h = each-at q workers 5 starting h (omega arith)
workers-each q guarding h = each-at q workers 6 starting h (omega arith)
workers-each q clearing h = each-at q workers 7 starting h (omega arith)
workers-each q running h = each-at q workers 8 starting h (omega arith)
workers-each q releasing h = each-at q workers 9 starting h (omega arith)
workers-each q finished h = each-at q workers 10 starting h (omega arith)
workers-each q terminated h = each-at q workers 11 starting h (omega arith)

abbrev owners : List OwnerAt
owners =
    idle ∷ new_inited ∷ new_lock ∷ go_assign ∷ go_try ∷ go_unlock ∷ go_spin ∷ lazy ∷ join_stop
    ∷ join_test ∷ join_assign ∷ join_try ∷ join_unlock ∷ joining ∷ joined ∷ []

owners-each : (q : OwnerAt → Bool) (o : OwnerAt) → each q owners ≡ true → q o ≡ true
owners-each q idle h = each-at q owners 0 idle h (omega arith)
owners-each q new_inited h = each-at q owners 1 idle h (omega arith)
owners-each q new_lock h = each-at q owners 2 idle h (omega arith)
owners-each q go_assign h = each-at q owners 3 idle h (omega arith)
owners-each q go_try h = each-at q owners 4 idle h (omega arith)
owners-each q go_unlock h = each-at q owners 5 idle h (omega arith)
owners-each q go_spin h = each-at q owners 6 idle h (omega arith)
owners-each q lazy h = each-at q owners 7 idle h (omega arith)
owners-each q join_stop h = each-at q owners 8 idle h (omega arith)
owners-each q join_test h = each-at q owners 9 idle h (omega arith)
owners-each q join_assign h = each-at q owners 10 idle h (omega arith)
owners-each q join_try h = each-at q owners 11 idle h (omega arith)
owners-each q join_unlock h = each-at q owners 12 idle h (omega arith)
owners-each q joining h = each-at q owners 13 idle h (omega arith)
owners-each q joined h = each-at q owners 14 idle h (omega arith)

unfoldable pub both : (Bool → Bool) → Bool
both p = if p true then p false else false

both-at : (p : Bool → Bool) (b : Bool) → both p ≡ true → p b ≡ true
unfolding both
both-at p true e = ground arith
both-at p false e = ground arith

-- A test that passes on every control state.
unfoldable pub every : (Control → Bool) → Bool
every p =
    each
      (λ w.
        each
          (λ o. both (λ a. both (λ b. both (λ c. both (λ d. both (λ e. both (λ f. both (λ g.
            p (record {
              worker = w;
              owner = o;
              is_waiting = a;
              init_symbol = b;
              init_symbol_inited = c;
              continue_loop = d;
              first_loop = e;
              working_symbol = f;
              has_task = g;
            })))))))))
          owners)
      workers

pub every-at : (p : Control → Bool) (c : Control) → every p ≡ true → p c ≡ true
unfolding every
every-at p c h = both-at _ c.has_task (
    both-at _ c.working_symbol (
      both-at _ c.first_loop (
        both-at _ c.continue_loop (
          both-at _ c.init_symbol_inited (
            both-at _ c.init_symbol
              (both-at _ c.is_waiting (owners-each _ c.owner (workers-each _ c.worker h))))))))
