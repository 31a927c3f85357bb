-- ===== src/ThreadPool/Preserved.antt =====
-- What each step of a worker of src/native/src/lib/threadPool.hpp or of its owner keeps: tests on all control
-- states, and what they say of one.
use snakesocks.Base.{
  ap, sym, ◌⊎◌, inl, inr, arith, ℕ, ◌<◌, ◌≤◌, ◌≡◌, refl, Bool, true, false, not, ◌&&◌, ◌||◌, Option,
  none, some, ltb,
}
use snakesocks.ThreadPool.{
  WorkerAt, guarding, running, OwnerAt, idle, new_inited, new_lock, go_assign, lazy, join_stop,
  join_assign, Control, worker_control, owner_control,
}
use snakesocks.ThreadPool.States.{each, both, every, every-at}
use snakesocks.ThreadPool.Invariant.{
  is_new, is_settled, is_beginning, is_sound, owes, owner_rank, worker_rank, measure,
}

abbrev implies : Bool → Bool → Bool
implies true b = b
implies false b = true

abbrev pub equal : Bool → Bool → Bool
equal true b = b
equal false b = not b

abbrev after : (Control → Bool) → Option Control → Bool
after p none = true
after p (some d) = p d

-- What is owed before and after a step of the worker: running a task settles it, only that.
abbrev pub worker_settles : WorkerAt → Bool → Bool → Bool
worker_settles w before next = elim w [ running ↦ before && not next | _ ↦ equal before next ]

-- And of the owner: storing a task owes it, when nothing was owed before, only that.
abbrev pub owner_settles : OwnerAt → Bool → Bool → Bool
owner_settles o before next = elim o [
  | go_assign ↦ next && not before
  | join_assign ↦ next && not before
  | _ ↦ equal before next
]

lowers : Control → Control → Bool
unfolding measure is_sound
lowers c d = is_sound d && ltb (measure d) (measure c)

worker_fine : Control → Bool
unfolding is_sound owes worker_control lowers
worker_fine c =
    implies (is_sound c)
      (after (λ d. lowers c d && worker_settles c.worker (owes c) (owes d)) (worker_control c))

owner_fine : Control → Bool
unfolding is_sound owes owner_control lowers
owner_fine c =
    implies (is_sound c)
      (after (λ d. lowers c d && owner_settles c.owner (owes c) (owes d)) (owner_control c))

abbrev pub waits : Option Control → Bool
waits none = true
waits (some d) = false

-- Where neither thread has a step, nothing is owed, and the worker has begun.
end_fine : Control → Bool
unfolding is_sound owes worker_control owner_control
end_fine c = implies (is_sound c) (
    implies (waits (worker_control c))
      (implies (waits (owner_control c)) (not (owes c) && not (is_new c.owner))))

-- Once it has taken its first task or waits for another, it stays so, and when the owner is outside and
-- finds it waiting, it may begin a call.
settled_fine : Control → Bool
unfolding is_settled worker_control owner_control
settled_fine c = implies (is_settled c) (
    after is_settled (worker_control c) && after is_settled (owner_control c) && (elim c.owner [
      | idle ↦
          implies c.is_waiting (
            is_settled (record c { owner = go_assign })
            && is_settled (record c { owner = join_stop }))
          && is_settled (record c { owner = lazy })
      | _ ↦ true
    ]))

-- The owner has yet to store the task with which its call began.
abbrev pub is_before : OwnerAt → Bool
is_before o = elim o [ new_inited ↦ true | new_lock ↦ true | go_assign ↦ true | _ ↦ false ]

abbrev pub owner_stores : OwnerAt → Bool → Bool → Bool
owner_stores o before next = elim o [ go_assign ↦ before && not next | _ ↦ equal before next ]

store_fine : Control → Bool
unfolding worker_control owner_control
store_fine c =
    after (λ d. equal (is_before c.owner) (is_before d.owner)) (worker_control c)
    && after (λ d. owner_stores c.owner (is_before c.owner) (is_before d.owner)) (owner_control c)
    && implies (waits (owner_control c)) (not (is_before c.owner) || is_new c.owner)

all_fine :
    every (λ c. worker_fine c && owner_fine c && end_fine c && settled_fine c && store_fine c)
    ≡ true
unfolding every each both worker_fine owner_fine end_fine settled_fine store_fine is_settled
    is_beginning
all_fine = refl

owner_rank-le : (o : OwnerAt) → owner_rank o ≤ 7
owner_rank-le o = elim o as (λ o. owner_rank o ≤ 7) [ idle ↦ omega arith | _ ↦ omega arith ]

worker_rank-le : (locked : Bool) (w : WorkerAt) → worker_rank locked w ≤ 9
worker_rank-le locked w = elim w as (λ w. worker_rank locked w ≤ 9) [
  | guarding ↦ ground arith
  | _ ↦ ground arith
]

pub measure-bound : (c : Control) → measure c ≤ 149
unfolding measure
measure-bound c = omega (arith, owner_rank-le c.owner, worker_rank-le c.working_symbol c.worker)

ltb_to : (a b : ℕ) → ltb a b ≡ true → a < b
ltb_to a b h = ground arith

not_to : (b : Bool) → not b ≡ true → b ≡ false
not_to b h = ground arith

neither : (a b : Bool) → not a || b ≡ true → b ≡ false → a ≡ false
neither a b h e = ground arith

pub equal_to : (a b : Bool) → equal a b ≡ true → a ≡ b
equal_to a b h = ground arith

and_to : (a b : Bool) → a && b ≡ true → (a ≡ true) × (b ≡ true)
and_to true b e = (refl, e)
and_to false b e = absurd (ground arith)

after-some :
    (p : Control → Bool) (o : Option Control) (d : Control)
    → o ≡ some d
    → after p o ≡ true
    → p d ≡ true
after-some p o d e h = rw e at h

fine :
    (c : Control)
    → (worker_fine c ≡ true)
      × (owner_fine c ≡ true)
      × (end_fine c ≡ true)
      × (settled_fine c ≡ true)
      × (store_fine c ≡ true)
fine c =
    let h =
      every-at (λ c. worker_fine c && owner_fine c && end_fine c && settled_fine c && store_fine c)
        c all_fine in
    let (h1234, h5) = and_to _ _ h in
    let (h123, h4) = and_to _ _ h1234 in
    let (h12, h3) = and_to _ _ h123 in let (h1, h2) = and_to _ _ h12 in (h1, h2, h3, h4, h5)

pub worker_control-is_sound :
    (c d : Control)
    → is_sound c ≡ true
    → worker_control c ≡ some d
    → (is_sound d ≡ true)
      × (measure d < measure c)
      × (worker_settles c.worker (owes c) (owes d) ≡ true)
unfolding worker_fine lowers
worker_control-is_sound c d sound e =
    let (low, settles) = and_to _ _ (
      after-some (λ d. lowers c d && worker_settles c.worker (owes c) (owes d)) _ d e
        (rw sound at (fine c).0)) in
    let (kept, less) = and_to _ _ low in (kept, ltb_to _ _ less, settles)

pub owner_control-is_sound :
    (c d : Control)
    → is_sound c ≡ true
    → owner_control c ≡ some d
    → (is_sound d ≡ true)
      × (measure d < measure c)
      × (owner_settles c.owner (owes c) (owes d) ≡ true)
unfolding owner_fine lowers
owner_control-is_sound c d sound e =
    let (low, settles) = and_to _ _ (
      after-some (λ d. lowers c d && owner_settles c.owner (owes c) (owes d)) _ d e
        (rw sound at (fine c).1)) in
    let (kept, less) = and_to _ _ low in (kept, ltb_to _ _ less, settles)

pub owes-end :
    (c : Control)
    → is_sound c ≡ true
    → worker_control c ≡ none
    → owner_control c ≡ none
    → (owes c ≡ false) × (is_new c.owner ≡ false)
unfolding end_fine
owes-end c sound ew eo =
    let (a, b) = and_to _ _ (rw (sound, ew, eo) at (fine c).2) in
    (not_to (owes c) a, not_to (is_new c.owner) b)

pub is_settled-is_sound : (c : Control) → is_settled c ≡ true → is_sound c ≡ true
unfolding is_sound
is_settled-is_sound c h = rw h refl

pub settled-step :
    (c d : Control)
    → is_settled c ≡ true
    → (worker_control c ≡ some d) ⊎ (owner_control c ≡ some d)
    → is_settled d ≡ true
unfolding settled_fine
settled-step c d h step =
    let (two, calls) = and_to _ _ (rw h at (fine c).3) in
    let (w, o) = and_to _ _ two in
    elim step [
      | inl e ↦ after-some is_settled (worker_control c) d e w
      | inr e ↦ after-some is_settled (owner_control c) d e o
    ]

-- A call that begins outside keeps it, if it is the stop or finds the worker waiting.
pub settled-call :
    (c : Control)
    → is_settled c ≡ true
    → c.owner ≡ idle
    → (is_settled (record c { owner = lazy }) ≡ true)
      × (c.is_waiting ≡ true
          → (is_settled (record c { owner = go_assign }) ≡ true)
            × (is_settled (record c { owner = join_stop }) ≡ true))
unfolding settled_fine
settled-call c h outside =
    let (two, calls) = and_to _ _ (rw (h, outside) at (fine c).3) in
    let (maybe, lazily) = and_to _ _ calls in
    let starts : implies c.is_waiting (
          is_settled (record c { owner = go_assign })
          && is_settled (record c { owner = join_stop }))
        ≡ true =
      maybe in
    (lazily, λ e. and_to _ _ (rw e at starts))

-- Beginning a call neither owes nor settles anything.
pub owes-call :
    (c : Control)
    → c.owner ≡ idle
    → (owes (record c { owner = lazy }) ≡ owes c)
      × (owes (record c { owner = go_assign }) ≡ owes c)
      × (owes (record c { owner = join_stop }) ≡ owes c)
unfolding owes
owes-call c outside =
    let same : owes (record c { owner = idle }) ≡ owes c =
      ap (λ o. owes (record c { owner = o })) (sym outside) in
    (same, same, same)

pub worker_control-stores :
    (c d : Control) → worker_control c ≡ some d → is_before c.owner ≡ is_before d.owner
unfolding store_fine
worker_control-stores c d e =
    let (two, _) = and_to _ _ (fine c).4 in
    equal_to _ _ (
      after-some (λ d. equal (is_before c.owner) (is_before d.owner)) (worker_control c) d e
        (and_to _ _ two).0)

pub owner_control-stores :
    (c d : Control)
    → owner_control c ≡ some d
    → owner_stores c.owner (is_before c.owner) (is_before d.owner) ≡ true
unfolding store_fine
owner_control-stores c d e =
    let (two, _) = and_to _ _ (fine c).4 in
    after-some (λ d. owner_stores c.owner (is_before c.owner) (is_before d.owner)) (owner_control c)
      d e (and_to _ _ two).1

-- Once neither thread has a step, the owner has stored its task.
pub is_before-end :
    (c : Control)
    → is_sound c ≡ true
    → worker_control c ≡ none
    → owner_control c ≡ none
    → is_before c.owner ≡ false
unfolding store_fine
is_before-end c sound ew eo =
    let (_, last) = and_to _ _ (fine c).4 in
    let stored : implies (waits (owner_control c)) (not (is_before c.owner) || is_new c.owner)
        ≡ true =
      last in
    neither (is_before c.owner) (is_new c.owner) (rw eo at stored) (owes-end c sound ew eo).1
