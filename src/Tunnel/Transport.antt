-- ===== src/Tunnel/Transport.antt =====
-- Data through the tunnel: what one end of src/native/src/socks5.cc and tunnel.cc reads is what the
-- other end writes.
use snakesocks.Base.{
  All, ℕ, ◌+◌, ◌≤◌, ◌<◌, ◌^◌, ◌≡◌, ◌≢◌, refl, ap, sym, ◌∙◌, true, false, some, [], ◌++◌, append-nil,
  length, replicate, drop, arith, drop-append, ==_ne,
}
use snakesocks.Io.{IsByte, running, Bytes, ok, Streams}
use snakesocks.Module.{
  ClientQuery, ClientFunctions, ServerFunctions, received, decode, IsQuery, as_read,
}
use snakesocks.NetLib.{is_dns_query, max_packet}
use snakesocks.NetLib.Frames.{frame, Sent}
use snakesocks.Environment.{Environment}
use snakesocks.Inbound.{Session, on_client_data, on_next_hop_data}
use snakesocks.Inbound.Forward.{on_client_data-forward, on_next_hop_data_lem}
use snakesocks.Outbound.{Channel}
use snakesocks.Relay.{on_local_data, on_remote_data}
use snakesocks.Relay.Packs.{encode-payload, on_local_data_lem, on_remote_data_lem}
use snakesocks.Tunnel.{ModuleLaws}

module _ (env : Environment) (str : Streams env.io) (fd : ℕ) where
  -- What was sent on a socket from one moment to another.
  abbrev pub sent_since : env.io.World → env.io.World → Bytes
  sent_since u w = drop (length (str.outgoing u fd)) (str.outgoing w fd)

  pub sent_since-Sent :
      (bs : Bytes) (u w : env.io.World) → Sent env.io str fd bs u w → sent_since u w ≡ bs
  sent_since-Sent bs u w z = rw z.sent (drop-append (str.outgoing u fd) bs)

  pub sent_since-none :
      (u w : env.io.World) → str.outgoing w fd ≡ str.outgoing u fd → sent_since u w ≡ []
  sent_since-none u w e = rw e (
      ap (drop (length (str.outgoing u fd))) (sym (append-nil (str.outgoing u fd)))
      ∙ drop-append (str.outgoing u fd) [])

module _ {I : Type 0} (client_env server_env : Environment) (cs : Streams client_env.io)
    (ss : Streams server_env.io) (client : ClientFunctions I) (server : ServerFunctions I)
    (laws : ModuleLaws client server) (bind_port m_fd tunnel_fd connfd : ℕ) where
  -- From the local program to the next hop. If the two ends are linked, the client's template with
  -- the bytes is a query within its ranges and names no zero address, and the server, which has a next
  -- hop, has before it what the client sends when it reads some bytes, few enough for a packet, from
  -- the local program, then over open sockets of their own the server sends exactly those bytes to the
  -- next hop; both go on, and they stay linked.
  pub upload :
      (bytes rest : Bytes) (template : ClientQuery) (s : Channel client_env.io.World I)
      (t : Session server_env.io.World I) (u : client_env.io.World) (fd : ℕ)
      → client_env.readall m_fd s.world ≡ (ok (some bytes), u)
      → 0 < length bytes
      → length bytes + laws.overhead ≤ max_packet
      → IsQuery (record template { payload = received bytes })
      → is_dns_query template ≡ false
      → laws.Link s.conn t.conn
      → cs.writable u tunnel_fd ≡ true
      → t.next_hop ≡ some fd
      → connfd ≢ fd
      → ss.writable t.world fd ≡ true
      → ss.incoming t.world connfd
        ≡ sent_since client_env cs tunnel_fd u
            (on_local_data client_env client m_fd tunnel_fd template s).1.world
          ++ rest
      → let a = on_local_data client_env client m_fd tunnel_fd template s in
        let b = on_client_data server_env server bind_port connfd t in
        (a.0 ≡ ok running)
        × (b.0 ≡ ok tt)
        × (ss.outgoing b.1.world fd ≡ ss.outgoing t.world fd ++ bytes)
        × (ss.incoming b.1.world connfd ≡ rest)
        × laws.Link a.1.conn b.1.conn
  upload bytes rest template s t u fd got some_bytes fits isq no_dns link open_c hop ne open_s
        stream =
      let q : ClientQuery = record template { payload = received bytes } in
      let (packet, c', t', enc, dec, link', _, over) =
        laws.client_codec s.conn t.conn q link isq fits in
      let (w, e, z, _) =
        on_local_data_lem client_env cs client m_fd tunnel_fd bytes template s c' (received packet)
          u got
          (encode-payload client_env cs client m_fd tunnel_fd bytes template s.conn some_bytes
            ∙ enc)
          open_c in
      let e' : on_local_data client_env client m_fd tunnel_fd template s
          ≡ (ok running, record { world = w; conn = c' }) =
        e ∙ rw (==_ne (length bytes) 0 (omega arith)) refl in
      let stream' : ss.incoming t.world connfd ≡ frame packet ++ rest =
        rw (e', sent_since-Sent client_env cs tunnel_fd (frame packet) u w z) at stream in
      let (w', f, out, left, _, _, _) =
        on_client_data-forward server_env ss server bind_port connfd fd packet rest t (as_read q) t'
          hop ne stream' (omega arith) dec (unfold is_dns_query in no_dns) open_s in
      rw (e', f) (refl, refl, out, left, link')

  -- From the next hop to the local program. If the two ends are linked, and the client has before it
  -- what the server sends when it reads some bytes, few enough for a packet, from the next hop, then
  -- over open sockets of their own the client sends exactly those bytes to the local program; both go
  -- on, and they stay linked.
  pub download :
      (bytes rest : Bytes) (s : Channel client_env.io.World I) (t : Session server_env.io.World I)
      (u : server_env.io.World) (fd : ℕ)
      → server_env.quick_recvall fd t.world ≡ (ok bytes, u)
      → 0 < length bytes
      → length bytes + laws.overhead ≤ max_packet
      → All IsByte bytes
      → bind_port < 2 ^ 16
      → laws.Link s.conn t.conn
      → ss.writable u connfd ≡ true
      → tunnel_fd ≢ m_fd
      → cs.writable s.world m_fd ≡ true
      → cs.incoming s.world tunnel_fd
        ≡ sent_since server_env ss connfd u
            (on_next_hop_data server_env server bind_port connfd fd t).1.world
          ++ rest
      → let a = on_next_hop_data server_env server bind_port connfd fd t in
        let b = on_remote_data client_env client m_fd tunnel_fd s in
        (a.0 ≡ ok running)
        × (b.0 ≡ ok running)
        × (cs.outgoing b.1.world m_fd ≡ cs.outgoing s.world m_fd ++ bytes)
        × (cs.incoming b.1.world tunnel_fd ≡ rest)
        × laws.Link b.1.conn a.1.conn
  unfolding decode
  download bytes rest s t u fd got some_bytes fits bs port link open_s ne open_c stream =
      let q : ClientQuery = record {
        destination_ip = replicate 16 0;
        destination_port = bind_port;
        payload = received bytes;
      } in
      let isq : IsQuery q = record {
        address_length = refl;
        address_bytes = omega arith;
        port_range = port;
        payload_length = omega arith;
        payload_bytes = bs;
      } in
      let (packet, c', t', enc, dec, link', full, over) =
        laws.server_codec s.conn t.conn q link isq fits in
      let (w, e, z, _) =
        on_next_hop_data_lem server_env ss server bind_port connfd fd bytes t t' (received packet) u
          got enc (omega arith) open_s in
      let e' : on_next_hop_data server_env server bind_port connfd fd t
          ≡ (ok running, record { world = w; conn = t'; next_hop = t.next_hop }) =
        e ∙ rw (==_ne (length bytes) 0 (omega arith)) refl in
      let stream' : cs.incoming s.world tunnel_fd ≡ frame packet ++ rest =
        rw (e', sent_since-Sent server_env ss connfd (frame packet) u w z) at stream in
      let (w', f, out, left, _, _, _) =
        on_remote_data_lem client_env cs client m_fd tunnel_fd packet rest s (as_read q) c' ne
          stream' full (omega arith) dec open_c in
      rw (e', f) (refl, refl, out, left, link')
