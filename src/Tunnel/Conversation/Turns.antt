-- ===== src/Tunnel/Conversation/Turns.antt =====
-- What one turn does to the bytes between the two ends: the turns of src/native/src/socks5.cc at the client
-- and of tunnel.cc at the server, with any module that keeps its promises.
use snakesocks.Base.{
  ◌+◌, ℕ, ◌≤◌, ◌<◌, ◌^◌, ◌≡◌, ◌≢◌, refl, ◌∙◌, false, All, List, [], ◌∷◌, ◌++◌, length, replicate,
  arith, append_assoc, append-nil, ==_ne, inl, some,
}
use snakesocks.Io.{IsByte, Bytes, running, ok, Streams}
use snakesocks.Module.{
  ClientQuery, ClientFunctions, ServerFunctions, IsQuery, as_read, received, decode,
}
use snakesocks.NetLib.{is_dns_query, max_packet}
use snakesocks.NetLib.Frames.{frame}
use snakesocks.Environment.{Environment}
use snakesocks.Inbound.{on_next_hop_data}
use snakesocks.Inbound.Forward.{on_next_hop_data_lem}
use snakesocks.Relay.{on_local_data}
use snakesocks.Relay.Packs.{encode-payload, on_local_data_lem, on_remote_data_lem}
use snakesocks.Tunnel.Transport.{sent_since-Sent, sent_since-none}
use snakesocks.Tunnel.Pipeline.{PipelineLaws}
use snakesocks.Tunnel.Conversation.Dialling.{Dials, on_client_data-some}
use snakesocks.Tunnel.Conversation.{Both, Meanwhile, local_turn, client_turn, hop_turn, server_turn}
use snakesocks.Tunnel.Conversation.Conduit.{Conduit}
use snakesocks.Tunnel.Conversation.Agreement.{UpPack, DownPack, Agrees}
use snakesocks.Tunnel.Conversation.Wire.{IsWhole, Wire-append, Wire-IsWhole}

module _ {I : Type 0} (client_env server_env : Environment) (cs : Streams client_env.io)
    (ss : Streams server_env.io) (client : ClientFunctions I) (server : ServerFunctions I)
    (laws : PipelineLaws client server) (bind_port m_fd tunnel_fd connfd hop : ℕ)
    (template : ClientQuery) (isq : IsQuery template) (no_dns : is_dns_query template ≡ false)
    (port : bind_port < 2 ^ 16) (apart : tunnel_fd ≢ m_fd) (apart' : connfd ≢ hop)
    (dial : Dials server_env ss connfd hop) where
  abbrev System : Type 0
  System = Both client_env.io.World server_env.io.World I

  abbrev Holds : System → Conduit → Type 0
  Holds = Agrees client_env server_env cs ss client server laws m_fd tunnel_fd connfd hop

  pub local_turn-Agrees :
      (bytes : Bytes) (u : client_env.io.World) (t : System) (a : Conduit)
      → client_env.readall m_fd t.client.world ≡ (ok (some bytes), u)
      → Meanwhile client_env.io cs tunnel_fd m_fd [] t.client.world u
      → 0 < length bytes
      → length bytes + laws.overhead ≤ max_packet
      → All IsByte bytes
      → Holds t a
      → Holds
          (local_turn client_env server_env cs ss client server laws.overhead bind_port m_fd
            tunnel_fd connfd hop template u t)
          (record a { up = a.up ++ (bytes ∷ []) })
  local_turn-Agrees bytes u t a got quiet some_bytes fits bs h =
      let q : ClientQuery = record template { payload = received bytes } in
      let isq' : IsQuery q = record {
        address_length = isq.address_length;
        address_bytes = isq.address_bytes;
        port_range = isq.port_range;
        payload_length = omega arith;
        payload_bytes = bs;
      } in
      let (packet, c', enc, holds, full, over, reads) =
        laws.client_codec t.client.conn q h.client_holds isq' fits in
      let (w, e, z, others) =
        on_local_data_lem client_env cs client m_fd tunnel_fd bytes template t.client c'
          (received packet) u got
          (encode-payload client_env cs client m_fd tunnel_fd bytes template t.client.conn
              some_bytes
            ∙ enc)
          (quiet.still_open ∙ h.tunnel_open) in
      let e' : on_local_data client_env client m_fd tunnel_fd template t.client
          ≡ (ok running, record { world = w; conn = c' }) =
        e ∙ rw (==_ne (length bytes) 0 (omega arith)) refl in
      let other = others m_fd apart in
      rw (e', sent_since-Sent client_env cs tunnel_fd (frame packet) u w z)
        (record {
          client_holds = holds;
          server_holds = h.server_holds;
          has_hop = h.has_hop;
          up_wire = rw (← append_assoc (ss.incoming t.server.world connfd) t.up (frame packet)) (
              Wire-append (UpPack client server laws) a.up
                (ss.incoming t.server.world connfd ++ t.up) packet bytes
                (q, refl, unfold is_dns_query in no_dns, reads) full (omega arith) h.up_wire);
          down_wire =
              rw (z.unread ∙ quiet.arrived ∙ append-nil (cs.incoming t.client.world tunnel_fd))
                h.down_wire;
          hop_got = h.hop_got;
          local_got = other.sent ∙ quiet.sent_outside ∙ h.local_got;
          tunnel_open = z.still_open ∙ quiet.still_open ∙ h.tunnel_open;
          local_open = other.still_open ∙ quiet.outside_open ∙ h.local_open;
          connfd_open = h.connfd_open;
          hop_open = h.hop_open;
          well = refl;
        })

  pub hop_turn-Agrees :
      (bytes : Bytes) (u : server_env.io.World) (t : System) (a : Conduit)
      → t.server.next_hop ≡ some hop
      → server_env.quick_recvall hop t.server.world ≡ (ok bytes, u)
      → Meanwhile server_env.io ss connfd hop [] t.server.world u
      → 0 < length bytes
      → length bytes + laws.overhead ≤ max_packet
      → All IsByte bytes
      → Holds t a
      → Holds
          (hop_turn client_env server_env cs ss client server laws.overhead bind_port m_fd tunnel_fd
            connfd hop template u t)
          (record a { down = a.down ++ (bytes ∷ []) })
  hop_turn-Agrees bytes u t a has got quiet some_bytes fits bs h =
      let q : ClientQuery = record {
        destination_ip = replicate 16 0;
        destination_port = bind_port;
        payload = received bytes;
      } in
      let isq' : IsQuery q = record {
        address_length = refl;
        address_bytes = omega arith;
        port_range = port;
        payload_length = omega arith;
        payload_bytes = bs;
      } in
      let (packet, c', enc, holds, full, over, reads) =
        laws.server_codec t.server.conn q h.server_holds isq' fits in
      let (w, e, z, others) =
        on_next_hop_data_lem server_env ss server bind_port connfd hop bytes t.server c'
          (received packet) u got enc (omega arith) (quiet.still_open ∙ h.connfd_open) in
      let e' : on_next_hop_data server_env server bind_port connfd hop t.server
          ≡ (ok running, record { world = w; conn = c'; next_hop = t.server.next_hop }) =
        e ∙ rw (==_ne (length bytes) 0 (omega arith)) refl in
      let other = others hop apart' in
      rw (e', sent_since-Sent server_env ss connfd (frame packet) u w z)
        (record {
          client_holds = h.client_holds;
          server_holds = holds;
          has_hop = h.has_hop;
          down_wire =
              rw (← append_assoc (cs.incoming t.client.world tunnel_fd) t.down (frame packet)) (
                Wire-append (DownPack client server laws) a.down
                  (cs.incoming t.client.world tunnel_fd ++ t.down) packet bytes (q, refl, reads)
                  full (omega arith) h.down_wire);
          up_wire =
              rw (z.unread ∙ quiet.arrived ∙ append-nil (ss.incoming t.server.world connfd))
                h.up_wire;
          hop_got = other.sent ∙ quiet.sent_outside ∙ h.hop_got;
          local_got = h.local_got;
          tunnel_open = h.tunnel_open;
          local_open = h.local_open;
          connfd_open = z.still_open ∙ quiet.still_open ∙ h.connfd_open;
          hop_open = λ e. other.still_open ∙ quiet.outside_open ∙ h.hop_open e;
          well = refl;
        })

  abbrev served : System → System
  served t =
      server_turn client_env server_env cs ss client server laws.overhead bind_port m_fd tunnel_fd
        connfd hop template t

  pub server_turn-Agrees :
      (t : System) (a : Conduit)
      → IsWhole (ss.incoming t.server.world connfd)
      → Holds t a
      → (bytes : Bytes) × (later : List Bytes) × (a.up ≡ bytes ∷ later)
        × ((served t).server.next_hop ≡ some hop)
        × Holds (served t) (record a { up = later; at_hop = a.at_hop ++ bytes })
  server_turn-Agrees t a whole h =
      let (
        bytes,
        later,
        packet,
        rest,
        waits,
        came,
        (q, is_payload, no_query, reads),
        _,
        fits,
        wire,
      ) =
        Wire-IsWhole (UpPack client server laws) a.up (ss.incoming t.server.world connfd) t.up whole
          h.up_wire in
      let (c', dec, holds) = reads t.server.conn h.server_holds in
      let (w, e, out, left, silent, open_connfd, open_hop) =
        on_client_data-some server_env ss server bind_port connfd hop dial packet rest t.server
          (as_read q) c' h.has_hop h.hop_open apart' came fits dec
          (unfold is_dns_query in no_query) in
      (
        bytes,
        later,
        waits,
        rw e refl,
        rw (e, sent_since-none server_env ss connfd t.server.world w silent, append-nil t.down)
            (record {
              client_holds = h.client_holds;
              server_holds = holds;
              has_hop = inl refl;
              up_wire = rw left wire;
              down_wire = h.down_wire;
              hop_got = out ∙ rw (h.hop_got, is_payload) refl;
              local_got = h.local_got;
              tunnel_open = h.tunnel_open;
              local_open = h.local_open;
              connfd_open = open_connfd ∙ h.connfd_open;
              hop_open = λ e. open_hop;
              well = refl;
            }),
      )

  pub client_turn-Agrees :
      (t : System) (a : Conduit)
      → IsWhole (cs.incoming t.client.world tunnel_fd)
      → Holds t a
      → (bytes : Bytes) × (later : List Bytes) × (a.down ≡ bytes ∷ later)
        × Holds
            (client_turn client_env server_env cs ss client server laws.overhead bind_port m_fd
              tunnel_fd connfd hop template t)
            (record a { down = later; at_local = a.at_local ++ bytes })
  unfolding decode
  client_turn-Agrees t a whole h =
      let (bytes, later, packet, rest, waits, came, (q, is_payload, reads), full, fits, wire) =
        Wire-IsWhole (DownPack client server laws) a.down (cs.incoming t.client.world tunnel_fd)
          t.down whole h.down_wire in
      let (c', dec, holds) = reads t.client.conn h.client_holds in
      let (w, e, out, left, silent, open_tunnel, open_local) =
        on_remote_data_lem client_env cs client m_fd tunnel_fd packet rest t.client (as_read q) c'
          apart came full (omega arith) dec h.local_open in
      (
        bytes,
        later,
        waits,
        rw (e, sent_since-none client_env cs tunnel_fd t.client.world w silent, append-nil t.up)
            (record {
              client_holds = holds;
              server_holds = h.server_holds;
              has_hop = h.has_hop;
              up_wire = h.up_wire;
              down_wire = rw left wire;
              hop_got = h.hop_got;
              local_got = out ∙ rw (h.local_got, is_payload) refl;
              tunnel_open = open_tunnel ∙ h.tunnel_open;
              local_open = open_local ∙ h.local_open;
              connfd_open = h.connfd_open;
              hop_open = h.hop_open;
              well = refl;
            }),
      )
