-- ===== src/Tunnel.antt =====
-- Both ends of the tunnel together: src/native/src/socks5.cc at the client and tunnel.cc at the
-- server, with any module whose two halves fit each other. No code of its own is modelled here.
pub mod Conversation
pub mod Dns
pub mod Login
pub mod Pipeline
pub mod Secure
pub mod Session
pub mod Simple
pub mod Transport
use snakesocks.Base.{[], ℕ, ◌+◌, ◌≤◌, ◌≡◌, length}
use snakesocks.Io.{Bytes, Result, ok, thrown, overrun}
use snakesocks.Module.{
  BinarySafeString, ClientQuery, ConnectInfo, ClientFunctions, ServerFunctions, IsQuery, as_read,
  received,
}
use snakesocks.NetLib.{max_packet}

-- What stdafx.h asks of a module, as far as data go: `Link` holds between the two ends of one
-- connection once they have authenticated; what one end encodes the other decodes, and they stay
-- linked, as far as the program sends such packets. A packet is longer than its payload by at most
-- `overhead` bytes, and not empty.
pub record ModuleLaws {I : Type 0} (client : ClientFunctions I) (server : ServerFunctions I)
    : Type 1 where
  pub Link : ConnectInfo I → ConnectInfo I → Type 0
  pub overhead : ℕ
  pub client_codec :
      (c s : ConnectInfo I) (q : ClientQuery)
      → Link c s
      → IsQuery q
      → length q.payload.str + overhead ≤ max_packet
      → (packet : Bytes) × (c' : ConnectInfo I) × (s' : ConnectInfo I) × (client.client_encode c q
          ≡ (ok (received packet), c'))
        × (server.server_decode s (received packet) ≡ (ok (as_read q), s'))
        × Link c' s'
        × (1 ≤ length packet)
        × (length packet ≤ length q.payload.str + overhead)
  pub server_codec :
      (c s : ConnectInfo I) (q : ClientQuery)
      → Link c s
      → IsQuery q
      → length q.payload.str + overhead ≤ max_packet
      → (packet : Bytes) × (c' : ConnectInfo I) × (s' : ConnectInfo I) × (server.server_encode s q
          ≡ (ok (received packet), s'))
        × (client.client_decode c (received packet) ≡ (ok (as_read q), c'))
        × Link c' s'
        × (1 ≤ length packet)
        × (length packet ≤ length q.payload.str + overhead)

-- The bytes that a call of a module has returned.
abbrev pub bytes_of : {C : Type 0} → Result BinarySafeString × C → Bytes
bytes_of (ok e, c) = e.str
bytes_of (thrown e, c) = []
bytes_of (overrun, c) = []
