-- ===== src/Io.antt =====
-- What the program does to the outside: die and sysdie of src/native/src/syserr.hpp as the throwing
-- half of a state and exception monad, and the calls of rlib's sockIO as an interface.
pub mod Pipes
use snakesocks.Base.{
  ℕ, ◌≤◌, ◌<◌, ◌≡◌, refl, Bool, true, false, List, ◌++◌, length, take, drop, leb, ◌==◌,
  if◌then◌else◌,
}

-- A byte is a number below 256.
abbrev pub Bytes : Type 0
Bytes = List ℕ

abbrev pub IsByte : ℕ → Type 0
IsByte b = b < 256

-- One constructor for each message that the modelled code throws. `io_failed` stands for what
-- rlib's sockIO throws, `host_not_found` for what Boost's resolver throws.
pub data Error : Type 0 where
  io_failed host_not_found resolve_failed : Error
  incorrect_protocol incorrect_ver invalid_atyp wrong_atyp : Error
  bad_cmd : ℕ → Error
  incorrect_type null_addr unresolved_domain no_port cannot_resolve : Error
  auth_query_too_long auth_reply_too_long auth_failed : Error
  refuse_to_send refuse_to_recv : Error
  select_failed read_failed setsockopt_failed getaddrinfo_failed no_endpoint listen_failed : Error
  startup_failed : Error
  unknown_log_level : Error
  not_set : ℕ → Error
  missing_symbol open_failed : Error
  bad_path bad_data bad_number daemon_failed : Error

-- `overrun` is no C++ value: the code reads or writes, or lets a peer write, outside a buffer, or
-- `std::terminate` ends the program.
pub data Result (A : Type 0) : Type 0 where
  ok : A → Result A
  thrown : Error → Result A
  overrun : Result A

abbrev pub M : Type 0 → Type 0 → Type 0
M W A = W → Result A × W

abbrev pub follow : {W A B : Type 0} → Result A × W → (A → M W B) → Result B × W
follow (ok a, w) f = f a w
follow (thrown e, w) f = (thrown e, w)
follow (overrun, w) f = (overrun, w)

infixl 5 ◌>>=◌ ◌>>◌
abbrev pub ◌>>=◌ : {W A B : Type 0} → M W A → (A → M W B) → M W B
◌>>=◌ m f w = follow (m w) f

abbrev pub ◌>>◌ : {W B : Type 0} → M W (Unit {0}) → M W B → M W B
m >> k = m >>= λ _. k

abbrev pub return : {W A : Type 0} → A → M W A
return a w = (ok a, w)

-- Continuations that agree everywhere may take each other's place.
pub follow-same :
    {W A B : Type 0} (f g : A → M W B)
    → ((a : A) (w : W) → f a w ≡ g a w)
    → (p : Result A × W) → follow p f ≡ follow p g
follow-same f g same (ok a, w) = same a w
follow-same f g same (thrown e, w) = refl
follow-same f g same (overrun, w) = refl

unfoldable pub die : {W A : Type 0} → Error → M W A
die e w = (thrown e, w)

abbrev pub out_of_bounds : {W A : Type 0} → M W A
out_of_bounds w = (overrun, w)

-- `if(!test) die(e);`
abbrev pub guard : {W : Type 0} → Bool → Error → M W (Unit {0})
guard true e w = (ok tt, w)
guard false e w = (thrown e, w)

-- Of a loop over `select`. `running`: it goes on. `closed`: it has returned.
pub data Status : Type 0 where
  running closed : Status

-- rlib's sockIO on a connected socket, by its descriptor: `recvn_ex` and `sendn_ex`.
pub record SockIo : Type 1 where
  pub World : Type 0
  pub recvn : ℕ → ℕ → World → Result Bytes × World
  pub sendn : ℕ → Bytes → World → Result (Unit {0}) × World

-- A receive into the `room` bytes that are left of a buffer; the code never compares the two.
abbrev pub recv_into : (io : SockIo) → ℕ → ℕ → ℕ → M io.World Bytes
recv_into io room fd n = if leb n room then io.recvn fd n else out_of_bounds

-- What the code relies on: a stream socket delivers the peer's bytes in order, and `recvn_ex`
-- returns as many as asked for, or throws when the peer closes before; `sendn_ex` queues all the
-- bytes behind those sent before, as long as the peer has not closed.
pub record Streams (io : SockIo) : Type 0 where
  pub incoming : io.World → ℕ → Bytes
  pub outgoing : io.World → ℕ → Bytes
  pub writable : io.World → ℕ → Bool
  pub consume : ℕ → ℕ → io.World → io.World
  pub emit : ℕ → Bytes → io.World → io.World
  pub recvn_all :
      (fd n : ℕ) (w : io.World)
      → n ≤ length (incoming w fd)
      → io.recvn fd n w ≡ (ok (take n (incoming w fd)), consume fd n w)
  pub recvn_short :
      (fd n : ℕ) (w : io.World)
      → length (incoming w fd) < n
      → (io.recvn fd n w).0 ≡ thrown io_failed
  pub sendn_all :
      (fd : ℕ) (bs : Bytes) (w : io.World)
      → writable w fd ≡ true
      → io.sendn fd bs w ≡ (ok tt, emit fd bs w)
  pub incoming-consume :
      (fd n g : ℕ) (w : io.World)
      → incoming (consume fd n w) g ≡ (if fd == g then drop n (incoming w g) else incoming w g)
  pub outgoing-consume : (fd n g : ℕ) (w : io.World) → outgoing (consume fd n w) g ≡ outgoing w g
  pub writable-consume : (fd n g : ℕ) (w : io.World) → writable (consume fd n w) g ≡ writable w g
  pub incoming-emit :
      (fd g : ℕ) (bs : Bytes) (w : io.World) → incoming (emit fd bs w) g ≡ incoming w g
  pub outgoing-emit :
      (fd g : ℕ) (bs : Bytes) (w : io.World)
      → outgoing (emit fd bs w) g ≡ (if fd == g then outgoing w g ++ bs else outgoing w g)
  pub writable-emit :
      (fd g : ℕ) (bs : Bytes) (w : io.World) → writable (emit fd bs w) g ≡ writable w g
