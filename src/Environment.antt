-- ===== src/Environment.antt =====
-- What the program asks of the system and of the libraries beside the socket calls of Io: POSIX
-- calls, Boost's resolver, and readall, quick_connect and quick_recvall of rlib; and over the
-- resolver BoostNetLib::resolveDomainOnce, in src/native/src/lib/NetLib.cc.
pub mod Endpoints
pub mod OnPipes
pub mod Winsock
use snakesocks.Base.{
  ℕ, Bool, true, false, Option, none, some, List, [], ◌∷◌, ◌++◌, ◌==◌, replicate, if◌then◌else◌,
}
use snakesocks.Io.{Bytes, Error, resolve_failed, Result, ok, thrown, M, follow, ◌>>=◌, SockIo}

-- `boost::asio::ip::address`: the 4 or 16 bytes of an address.
pub data Address : Type 0 where
  v4 v6 : Bytes → Address

pub data SocketOption : Type 0 where
  reuse_addr reuse_port : SocketOption

pub record Environment : Type 1 where
  pub io : SockIo
  -- The descriptors that are ready, of those asked for; `none` is -1.
  pub select : List ℕ → M io.World (Option (List ℕ))
  pub resolve : Bytes → M io.World (List Address)
  pub quick_connect : Bytes → ℕ → M io.World ℕ
  pub quick_recvall : ℕ → M io.World Bytes
  -- What one `readall` of rlib's fdIO returns; `none` is a negative result.
  pub readall : ℕ → M io.World (Option Bytes)
  pub close : ℕ → io.World → io.World
  pub get_peer_name : ℕ → M io.World (Bytes × ℕ)
  -- An `addrinfo` of a list; `none` for the list is a result other than 0, for a socket it is -1.
  pub Endpoint : Type 0
  pub getaddrinfo : Bytes → ℕ → M io.World (Option (List Endpoint))
  pub socket : Endpoint → M io.World (Option ℕ)
  -- `setsockopt` of an option, and `connect` and `bind`: whether they succeed.
  pub setsockopt : SocketOption → ℕ → M io.World Bool
  pub connect : ℕ → Endpoint → M io.World Bool
  pub bind : ℕ → Endpoint → M io.World Bool
  pub listen : ℕ → M io.World Bool

-- The first endpoint that the filter accepts.
unfoldable pub first_accepted : (Address → Bool) → List Address → Result Address
first_accepted filter [] = thrown resolve_failed
first_accepted filter (a ∷ rest) = if filter a then ok a else first_accepted filter rest

module _ (env : Environment) where
  unfoldable pub resolve_domain_filtered : Bytes → (Address → Bool) → M env.io.World Address
  unfolding first_accepted
  resolve_domain_filtered domain filter = do
    addresses ← env.resolve domain
    λ w. (first_accepted filter addresses, w)

  unfoldable pub resolve_domain_once : Bytes → M env.io.World Address
  unfolding resolve_domain_filtered
  resolve_domain_once domain = resolve_domain_filtered domain (λ _. true)

-- `memcpy` of an address to the front of sixteen zero bytes.
unfoldable pub address_bytes : Address → Bytes
address_bytes (v4 bytes) = bytes ++ replicate 12 0
address_bytes (v6 bytes) = bytes

-- `FD_ISSET`
unfoldable pub is_set : List ℕ → ℕ → Bool
is_set [] fd = false
is_set (x ∷ xs) fd = if x == fd then true else is_set xs fd
