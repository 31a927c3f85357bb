-- ===== src/Tunnel/Conversation.antt =====
-- Both ends of the tunnel at work at the same time: src/native/src/socks5.cc at the client and tunnel.cc at
-- the server take their turns in any order, and the network carries bytes between them as it likes.
-- No code of its own is modelled here.
pub mod Agreement
pub mod ClientRounds
pub mod Conduit
pub mod Delivery
pub mod Dialling
pub mod Draining
pub mod Refinement
pub mod ServerRounds
pub mod Turns
pub mod Wire
use snakesocks.Base.{
  ℕ, ◌+◌, ◌≤◌, ◌<◌, ◌≡◌, refl, append_assoc, All, some, List, [], ◌∷◌, ◌++◌, length,
}
use snakesocks.Io.{IsByte, Bytes, Status, running, Result, ok, thrown, overrun, SockIo, Streams}
use snakesocks.Module.{ClientQuery, ClientFunctions, ServerFunctions}
use snakesocks.NetLib.{max_packet}
use snakesocks.Environment.{Environment}
use snakesocks.Inbound.{Session, on_client_data, on_next_hop_data}
use snakesocks.Outbound.{Channel}
use snakesocks.Relay.{on_local_data, on_remote_data}
use snakesocks.Tunnel.Transport.{sent_since}
use snakesocks.Tunnel.Conversation.Wire.{IsWhole}

-- The two ends, the bytes that the network has of each, and how the last turn ended.
pub record Both (CW SW I : Type 0) : Type 0 where
  pub client : Channel CW I
  pub server : Session SW I
  pub up : Bytes
  pub down : Bytes
  pub outcome : Result Status

-- What is new with a step: bytes that an end of the tunnel has read from outside.
pub data Event : Type 0 where
  quiet : Event
  from_local from_hop : Bytes → Event

abbrev pub told_local : Event → Bytes
told_local quiet = []
told_local (from_local bytes) = bytes
told_local (from_hop bytes) = []

abbrev pub told_hop : Event → Bytes
told_hop quiet = []
told_hop (from_local bytes) = []
told_hop (from_hop bytes) = bytes

-- All that was read from one side.
abbrev pub all_told : (Event → Bytes) → List Event → Bytes
all_told side [] = []
all_told side (e ∷ es) = side e ++ all_told side es

pub all_told-append :
    (side : Event → Bytes) (es fs : List Event)
    → all_told side (es ++ fs) ≡ all_told side es ++ all_told side fs
all_told-append side [] fs = refl
all_told-append side (e ∷ es) fs = simp (all_told-append side es fs, append_assoc)

abbrev pub went_on : Result (Unit {0}) → Result Status
went_on (ok r) = ok running
went_on (thrown e) = thrown e
went_on overrun = overrun

module _ (io : SockIo) (s : Streams io) (fd outside : ℕ) where
  -- `front` has arrived on the tunnel's socket; nothing else of it has changed, nor what was sent outside.
  pub record Meanwhile (front : Bytes) (u w : io.World) : Type 0 where
    pub arrived : s.incoming w fd ≡ s.incoming u fd ++ front
    pub sent : s.outgoing w fd ≡ s.outgoing u fd
    pub still_open : s.writable w fd ≡ s.writable u fd
    pub sent_outside : s.outgoing w outside ≡ s.outgoing u outside
    pub outside_open : s.writable w outside ≡ s.writable u outside

module _ {I : Type 0} (client_env server_env : Environment) (cs : Streams client_env.io)
    (ss : Streams server_env.io) (client : ClientFunctions I) (server : ServerFunctions I)
    (overhead bind_port m_fd tunnel_fd connfd hop : ℕ) (template : ClientQuery) where
  abbrev pub System : Type 0
  System = Both client_env.io.World server_env.io.World I

  abbrev pub local_turn : client_env.io.World → System → System
  local_turn u t =
      let (r, c) = on_local_data client_env client m_fd tunnel_fd template t.client in
      record t {
        client = c;
        outcome = r;
        up = t.up ++ sent_since client_env cs tunnel_fd u c.world;
      }

  abbrev pub client_turn : System → System
  client_turn t =
      let (r, c) = on_remote_data client_env client m_fd tunnel_fd t.client in
      record t {
        client = c;
        outcome = r;
        up = t.up ++ sent_since client_env cs tunnel_fd t.client.world c.world;
      }

  abbrev pub server_turn : System → System
  server_turn t =
      let (r, s) = on_client_data server_env server bind_port connfd t.server in
      record t {
        server = s;
        outcome = went_on r;
        down = t.down ++ sent_since server_env ss connfd t.server.world s.world;
      }

  abbrev pub hop_turn : server_env.io.World → System → System
  hop_turn u t =
      let (r, s) = on_next_hop_data server_env server bind_port connfd hop t.server in
      record t {
        server = s;
        outcome = r;
        down = t.down ++ sent_since server_env ss connfd u s.world;
      }

  -- A turn of the client's loop or of the server's, for one descriptor that is ready, or the network's. A read
  -- from outside returns some bytes, few enough for a packet; a receive from the tunnel waits until the
  -- packet is there; bytes arrive in the order in which they were sent.
  pub data Turn (t : System) : Event → System → Type 0 where
    local_speaks :
        (bytes : Bytes) (u : client_env.io.World)
        → client_env.readall m_fd t.client.world ≡ (ok (some bytes), u)
        → Meanwhile client_env.io cs tunnel_fd m_fd [] t.client.world u
        → 0 < length bytes
        → length bytes + overhead ≤ max_packet
        → All IsByte bytes
        → Turn t (from_local bytes) (local_turn u t)
    hop_speaks :
        (bytes : Bytes) (u : server_env.io.World)
        → t.server.next_hop ≡ some hop
        → server_env.quick_recvall hop t.server.world ≡ (ok bytes, u)
        → Meanwhile server_env.io ss connfd hop [] t.server.world u
        → 0 < length bytes
        → length bytes + overhead ≤ max_packet
        → All IsByte bytes
        → Turn t (from_hop bytes) (hop_turn u t)
    server_hears : IsWhole (ss.incoming t.server.world connfd) → Turn t quiet (server_turn t)
    client_hears : IsWhole (cs.incoming t.client.world tunnel_fd) → Turn t quiet (client_turn t)
    reaches_server :
        (front rest : Bytes) (w : server_env.io.World)
        → t.up ≡ front ++ rest
        → Meanwhile server_env.io ss connfd hop front t.server.world w
        → Turn t quiet (record t { server = record t.server { world = w }; up = rest })
    reaches_client :
        (front rest : Bytes) (w : client_env.io.World)
        → t.down ≡ front ++ rest
        → Meanwhile client_env.io cs tunnel_fd m_fd front t.client.world w
        → Turn t quiet (record t { client = record t.client { world = w }; down = rest })

  -- Turns in any order, with what was read in the order in which it was read.
  pub data Run : System → List Event → System → Type 0 where
    rests : (t : System) → Run t [] t
    goes_on :
        {s t u : System} {e : Event} {es : List Event} → Turn s e t → Run t es u → Run s (e ∷ es) u

  pub Run-append :
      {s t u : System} {es fs : List Event} → Run s es t → Run t fs u → Run s (es ++ fs) u
  Run-append (rests t) later = later
  Run-append (goes_on turn run) later = goes_on turn (Run-append run later)
