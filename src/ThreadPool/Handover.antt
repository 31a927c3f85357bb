-- ===== src/ThreadPool/Handover.antt =====
-- What src/native/src/lib/threadPool.hpp hands over to a worker, the worker runs once, in whatever order the
-- two threads take their steps.
use snakesocks.Base.{
  suc, ℕ, ◌+◌, ◌≤◌, ◌<◌, ◌≡◌, refl, ap, ◌∙◌, sym, Bool, true, false, not, ◌&&◌, Option, none, some,
  List, [], ◌++◌, arith, append-nil, if◌then◌else◌,
}
use snakesocks.ThreadPool.{
  WorkerAt, running, OwnerAt, go_assign, join_assign, Control, System, worker_data, owner_data,
  moved, worker_control, owner_control, worker_step, owner_step, Step, worker_moves, owner_moves,
  Steps, rest, then_step,
}
use snakesocks.ThreadPool.Invariant.{is_sound, owes, measure}
use snakesocks.ThreadPool.Preserved.{
  equal_to, is_before, owner_stores, worker_control-stores, owner_control-stores, is_before-end,
  worker_settles, owner_settles, owes-end, worker_control-is_sound, owner_control-is_sound,
}

-- What has been handed over and not yet run.
abbrev pub pending : System → List ℕ
pending s = if owes s.control then s.task else []

-- What has been handed over is what has run and what is pending.
abbrev pub IsAccounted : System → Type 0
IsAccounted s = s.submitted ≡ s.ran ++ pending s

pub moved-some :
    (f : System → System) (s t : System) (o : Option Control)
    → moved f s o ≡ some t
    → (d : Control) × (o ≡ some d) × (t ≡ record (f s) { control = d })
moved-some f s t none e = absurd (ground arith)
moved-some f s t (some d) e = (d, refl, cc)

pub not_second : (a b : Bool) → a && not b ≡ true → (a ≡ true) × (b ≡ false)
not_second a b h = ground arith

-- With `b` for what is owed before the step and `n` for what is owed after it.
worker_data-accounted :
    (w : WorkerAt) (s : System) (b n : Bool)
    → worker_settles w b n ≡ true
    → s.submitted ≡ s.ran ++ (if b then s.task else [])
    → (worker_data w s).submitted
      ≡ (worker_data w s).ran ++ (if n then (worker_data w s).task else [])
unfolding worker_data
worker_data-accounted w s b n =
    elim w
      as (λ w.
        worker_settles w b n ≡ true
        → s.submitted ≡ s.ran ++ (if b then s.task else [])
        → (worker_data w s).submitted
          ≡ (worker_data w s).ran ++ (if n then (worker_data w s).task else [])) [
            | running ↦ λ h e.
                let (was, left) = not_second b n h in
                rw left (rw was at e ∙ sym (append-nil (s.ran ++ s.task)))
            | _ ↦ λ h e. rw (equal_to b n h) at e
          ]

owner_data-accounted :
    (o : OwnerAt) (s : System) (b n : Bool)
    → owner_settles o b n ≡ true
    → s.submitted ≡ s.ran ++ (if b then s.task else [])
    → (owner_data o s).submitted ≡ (owner_data o s).ran ++ (if n then (owner_data o s).task else [])
unfolding owner_data
owner_data-accounted o s b n =
    elim o
      as (λ o.
        owner_settles o b n ≡ true
        → s.submitted ≡ s.ran ++ (if b then s.task else [])
        → (owner_data o s).submitted
          ≡ (owner_data o s).ran ++ (if n then (owner_data o s).task else [])) [
            | go_assign ↦ λ h e.
                let (owed, nothing) = not_second n b h in
                rw owed (ap (λ z. z ++ s.handed) (rw nothing at e ∙ append-nil s.ran))
            | join_assign ↦
                λ h e. let (owed, nothing) = not_second n b h in rw owed (rw nothing at e)
            | _ ↦ λ h e. rw (equal_to b n h) at e
          ]

pub worker_step-kept :
    (s t : System)
    → is_sound s.control ≡ true
    → IsAccounted s
    → worker_step s ≡ some t
    → (is_sound t.control ≡ true)
      × IsAccounted t
      × (measure t.control < measure s.control)
      × (worker_control s.control ≡ some t.control)
unfolding worker_step
worker_step-kept s t sound acc e =
    let (d, moves, same) =
      moved-some (worker_data s.control.worker) s t (worker_control s.control) e in
    let (kept, less, settles) = worker_control-is_sound s.control d sound moves in
    let goal = worker_data-accounted s.control.worker s (owes s.control) (owes d) settles acc in
    rw same (kept, goal, less, moves)

pub owner_step-kept :
    (s t : System)
    → is_sound s.control ≡ true
    → IsAccounted s
    → owner_step s ≡ some t
    → (is_sound t.control ≡ true)
      × IsAccounted t
      × (measure t.control < measure s.control)
      × (owner_control s.control ≡ some t.control)
unfolding owner_step
owner_step-kept s t sound acc e =
    let (d, moves, same) =
      moved-some (owner_data s.control.owner) s t (owner_control s.control) e in
    let (kept, less, settles) = owner_control-is_sound s.control d sound moves in
    let goal = owner_data-accounted s.control.owner s (owes s.control) (owes d) settles acc in
    rw same (kept, goal, less, moves)

pub Step-kept :
    (s t : System)
    → is_sound s.control ≡ true
    → IsAccounted s
    → Step s t
    → (is_sound t.control ≡ true) × IsAccounted t × (measure t.control < measure s.control)
Step-kept s t sound acc (worker_moves _ _ e) =
    let (a, b, c, _) = worker_step-kept s t sound acc e in (a, b, c)
Step-kept s t sound acc (owner_moves _ _ e) =
    let (a, b, c, _) = owner_step-kept s t sound acc e in (a, b, c)

-- How many steps a run without new calls has.
unfoldable pub count : {s t : System} → Steps s t → ℕ
count (rest s) = 0
count (then_step s t u p step) = suc (count p)

pub steps-kept :
    (s t : System) (p : Steps s t)
    → is_sound s.control ≡ true
    → IsAccounted s
    → (is_sound t.control ≡ true)
      × IsAccounted t
      × (count p + measure t.control ≤ measure s.control)
unfolding count
steps-kept s t (rest _) sound acc = (sound, acc, omega arith)
steps-kept s u (then_step _ t _ p step) sound acc =
    let (a, b, c) = steps-kept s t p sound acc in
    let (a', b', c') = Step-kept t u a b step in (a', b', omega arith)

moved-none : (f : System → System) (s : System) (o : Option Control) → moved f s o ≡ none → o ≡ none
moved-none f s none e = refl
moved-none f s (some d) e = absurd (ground arith)

-- The call that is under way began after `b` and hands over `f`.
abbrev pub HandsOver : List ℕ → List ℕ → System → Type 0
HandsOver b f s =
    (s.handed ≡ f) × (s.submitted ≡ b ++ (if is_before s.control.owner then [] else f))

worker_data-HandsOver :
    (w : WorkerAt) (s : System)
    → ((worker_data w s).handed ≡ s.handed) × ((worker_data w s).submitted ≡ s.submitted)
unfolding worker_data
worker_data-HandsOver w s =
    elim w
      as (λ w.
        ((worker_data w s).handed ≡ s.handed) × ((worker_data w s).submitted ≡ s.submitted)) [
          | running ↦ (refl, refl)
          | _ ↦ (refl, refl)
        ]

owner_data-HandsOver :
    (o : OwnerAt) (s : System) (b f : List ℕ) (was now : Bool)
    → owner_stores o was now ≡ true
    → s.handed ≡ f
    → s.submitted ≡ b ++ (if was then [] else f)
    → ((owner_data o s).handed ≡ f) × ((owner_data o s).submitted ≡ b ++ (if now then [] else f))
unfolding owner_data
owner_data-HandsOver o s b f was now =
    elim o
      as (λ o.
        owner_stores o was now ≡ true
        → s.handed ≡ f
        → s.submitted ≡ b ++ (if was then [] else f)
        → ((owner_data o s).handed ≡ f)
          × ((owner_data o s).submitted ≡ b ++ (if now then [] else f))) [
            | go_assign ↦ λ h e z.
                let (before, stored) = not_second was now h in
                let bare : s.submitted ≡ b = rw before at z ∙ append-nil b in
                (e, rw stored (ap (λ x. x ++ s.handed) bare ∙ ap (λ x. b ++ x) e))
            | join_assign ↦ λ h e z. (e, rw (equal_to was now h) at z)
            | _ ↦ λ h e z. (e, rw (equal_to was now h) at z)
          ]

Step-HandsOver : (b f : List ℕ) (s t : System) → HandsOver b f s → Step s t → HandsOver b f t
unfolding worker_step owner_step
Step-HandsOver b f s t (e, z) (worker_moves _ _ moves) =
    let (d, c, same) =
      moved-some (worker_data s.control.worker) s t (worker_control s.control) moves in
    let (eh, es) = worker_data-HandsOver s.control.worker s in
    let stores = worker_control-stores s.control d c in rw same (eh ∙ e, es ∙ rw stores at z)
Step-HandsOver b f s t (e, z) (owner_moves _ _ moves) =
    let (d, c, same) =
      moved-some (owner_data s.control.owner) s t (owner_control s.control) moves in
    rw same (
      owner_data-HandsOver s.control.owner s b f (is_before s.control.owner) (is_before d.owner)
        (owner_control-stores s.control d c) e z)

steps-HandsOver : (b f : List ℕ) (s t : System) → HandsOver b f s → Steps s t → HandsOver b f t
steps-HandsOver b f s t h (rest _) = h
steps-HandsOver b f s u h (then_step _ t _ p step) =
    Step-HandsOver b f t u (steps-HandsOver b f s t h p) step

-- Neither thread has a step.
abbrev pub IsStuck : System → Type 0
IsStuck s = (worker_step s ≡ none) × (owner_step s ≡ none)

-- Then everything that was handed over has run.
pub stuck-ran :
    (t : System) → is_sound t.control ≡ true → IsAccounted t → IsStuck t → t.ran ≡ t.submitted
unfolding worker_step owner_step
stuck-ran t sound acc (ew, eo) =
    let ew' = moved-none (worker_data t.control.worker) t (worker_control t.control) ew in
    let eo' = moved-none (owner_data t.control.owner) t (owner_control t.control) eo in
    let settled : t.submitted ≡ t.ran ++ [] = rw (owes-end t.control sound ew' eo').0 at acc in
    sym (append-nil t.ran) ∙ sym settled

pub handed_over :
    (b f : List ℕ) (s t : System)
    → is_sound s.control ≡ true
    → IsAccounted s
    → HandsOver b f s
    → Steps s t
    → IsStuck t
    → t.ran ≡ b ++ f
unfolding worker_step owner_step
handed_over b f s t sound acc h p (ew, eo) =
    let (sound', acc', _) = steps-kept s t p sound acc in
    let ew' = moved-none (worker_data t.control.worker) t (worker_control t.control) ew in
    let eo' = moved-none (owner_data t.control.owner) t (owner_control t.control) eo in
    let stored : t.submitted ≡ b ++ f =
      rw (is_before-end t.control sound' ew' eo') at (steps-HandsOver b f s t h p).1 in
    stuck-ran t sound' acc' (ew, eo) ∙ stored
