-- ===== src/Io/Pipes.antt =====
-- Sockets that meet the laws of `Streams`: for each descriptor the bytes to come, those sent, and
-- whether it has been closed. The tests run the code on them.
use snakesocks.Base.{
  ℕ, ◌≤◌, ◌<◌, ◌≡◌, refl, Bool, true, false, [], ◌++◌, ap, Bool-cases, inl, inr, ==_iff, length,
  take, drop, leb, le→leb, gt→leb, ◌==◌, if◌then◌else◌,
}
use snakesocks.Io.{Bytes, Result, ok, thrown, io_failed, SockIo, Streams}

pub record Pipes : Type 0 where
  pub inbox : ℕ → Bytes
  pub outbox : ℕ → Bytes
  pub shut : ℕ → Bool

abbrev pub update : (ℕ → Bytes) → ℕ → Bytes → ℕ → Bytes
update f k v j = if k == j then v else f j

abbrev pub recvn_pipe : ℕ → ℕ → Pipes → Result Bytes × Pipes
recvn_pipe fd n p =
    if leb n (length (p.inbox fd))
    then (ok (take n (p.inbox fd)), record p { inbox = update p.inbox fd (drop n (p.inbox fd)) })
    else (thrown io_failed, p)

abbrev pub sendn_pipe : ℕ → Bytes → Pipes → Result (Unit {0}) × Pipes
sendn_pipe fd bs p = (ok tt, record p { outbox = update p.outbox fd (p.outbox fd ++ bs) })

abbrev pub pipe_io : SockIo
pipe_io = record { World = Pipes; recvn = recvn_pipe; sendn = sendn_pipe }

pub recvn_pipe-all :
    (fd n : ℕ) (p : Pipes)
    → n ≤ length (p.inbox fd)
    → recvn_pipe fd n p
      ≡ (ok (take n (p.inbox fd)), record p { inbox = update p.inbox fd (drop n (p.inbox fd)) })
recvn_pipe-all fd n p h = rw (le→leb _ _ h) refl

pub recvn_pipe-short :
    (fd n : ℕ) (p : Pipes) → length (p.inbox fd) < n → (recvn_pipe fd n p).0 ≡ thrown io_failed
recvn_pipe-short fd n p h = rw (gt→leb _ _ h) refl

pub drop-update :
    (fd n g : ℕ) (f : ℕ → Bytes)
    → update f fd (drop n (f fd)) g ≡ (if fd == g then drop n (f g) else f g)
drop-update fd n g f = elim (Bool-cases (fd == g)) [
  | inl e ↦ rw e (ap (λ k. drop n (f k)) ((==_iff fd g).0 e))
  | inr e ↦ rw e refl
]

pub append-update :
    (fd g : ℕ) (bs : Bytes) (f : ℕ → Bytes)
    → update f fd (f fd ++ bs) g ≡ (if fd == g then f g ++ bs else f g)
append-update fd g bs f = elim (Bool-cases (fd == g)) [
  | inl e ↦ rw e (ap (λ k. f k ++ bs) ((==_iff fd g).0 e))
  | inr e ↦ rw e refl
]

abbrev pub pipe_streams : Streams pipe_io
pipe_streams = record {
  incoming = λ p. p.inbox;
  outgoing = λ p. p.outbox;
  writable = λ p fd. true;
  consume = λ fd n p. record p { inbox = update p.inbox fd (drop n (p.inbox fd)) };
  emit = λ fd bs p. record p { outbox = update p.outbox fd (p.outbox fd ++ bs) };
  recvn_all = recvn_pipe-all;
  recvn_short = recvn_pipe-short;
  sendn_all = λ fd bs w h. refl;
  incoming-consume = λ fd n g w. drop-update fd n g w.inbox;
  outgoing-consume = λ fd n g w. refl;
  writable-consume = λ fd n g w. refl;
  incoming-emit = λ fd g bs w. refl;
  outgoing-emit = λ fd g bs w. append-update fd g bs w.outbox;
  writable-emit = λ fd g bs w. refl;
}

-- Nothing but these bytes to come, on descriptor 0.
abbrev pub piped : Bytes → Pipes
piped bs = record {
  inbox = λ fd. if fd == 0 then bs else [];
  outbox = λ fd. [];
  shut = λ fd. false;
}
