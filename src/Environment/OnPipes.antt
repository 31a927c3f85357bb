-- ===== src/Environment/OnPipes.antt =====
-- An environment over the sockets of Io/Pipes for the tests: every descriptor is ready, every name
-- resolves to one address, every connection succeeds, and `close` marks its descriptor.
use snakesocks.Base.{
  ℕ, ◌≡◌, refl, true, Bool-cases, inl, inr, some, [], ◌∷◌, ◌==◌, ==_refl, if◌then◌else◌,
}
use snakesocks.Io.{Bytes, Result, ok}
use snakesocks.Io.Pipes.{Pipes, pipe_io, update}
use snakesocks.Environment.{Environment, v4}
use snakesocks.Inbound.Dispatch.{Closing}

-- All that there is to come.
abbrev read_pipe : ℕ → Pipes → Result Bytes × Pipes
read_pipe fd p = (ok (p.inbox fd), record p { inbox = update p.inbox fd [] })

abbrev close_pipe : ℕ → Pipes → Pipes
close_pipe fd p = record p { shut = λ j. if fd == j then true else p.shut j }

abbrev pub pipe_env : Environment
pipe_env = record {
  io = pipe_io;
  select = λ fds p. (ok (some fds), p);
  resolve = λ name p. (ok (v4 (93 ∷ 184 ∷ 216 ∷ 34 ∷ []) ∷ []), p);
  quick_connect = λ host port p. (ok 7, p);
  quick_recvall = read_pipe;
  readall = λ fd p. (ok (some (p.inbox fd)), record p { inbox = update p.inbox fd [] });
  close = close_pipe;
  get_peer_name = λ fd p. (ok ([], 0), p);
  Endpoint = Unit {0};
  getaddrinfo = λ host port p. (ok (some (tt ∷ [])), p);
  socket = λ rp p. (ok (some 9), p);
  setsockopt = λ option fd p. (ok true, p);
  connect = λ fd rp p. (ok true, p);
  bind = λ fd rp p. (ok true, p);
  listen = λ fd p. (ok true, p);
}

pub close_pipe-keeps :
    (fd g : ℕ) (p : Pipes) → p.shut g ≡ true → (if fd == g then true else p.shut g) ≡ true
close_pipe-keeps fd g p h = elim (Bool-cases (fd == g)) [ inl e ↦ rw e refl | inr e ↦ rw e h ]

abbrev pub pipe_closing : Closing pipe_env
pipe_closing = record {
  is_closed = λ p. p.shut;
  close_self = λ fd p. rw (==_refl fd) refl;
  close_keeps = close_pipe-keeps;
}
