-- ===== src/Inbound/Forward.antt =====
-- What the server of src/native/src/tunnel.cc does with one packet of the client, over the laws of
-- stream sockets: data go to the next hop, and DNS queries are answered.
use snakesocks.Base.{
  ℕ, ◌≤◌, ◌≡◌, ◌≢◌, refl, sym, ◌∙◌, true, false, none, some, [], ◌++◌, length, replicate, ◌==◌,
  if◌then◌else◌, arith, ==_refl, ==_ne,
}
use snakesocks.Io.{running, closed, Bytes, ok, Streams}
use snakesocks.Module.{BinarySafeString, ClientQuery, ConnectInfo, ServerFunctions, received}
use snakesocks.NetLib.{is_dns_query, get_domain_from_dns_query, ip_array_to_str, max_packet}
use snakesocks.NetLib.Frames.{
  frame, Sent, Same, Taken, emit-Same, after_send, after_send-Same, after_recv, after_recv-Same,
  recv_length_and_packet_lem, send_length_and_packet_lem,
}
use snakesocks.Environment.{Environment, Address, resolve_domain_once, address_bytes}
use snakesocks.Inbound.{Session, answer_dns, next_hop_for, on_client_data, on_next_hop_data}

module _ {I : Type 0} (env : Environment) (str : Streams env.io) (server : ServerFunctions I)
    (bind_port connfd : ℕ) where
  open str use {incoming, outgoing, writable, emit}

  -- A data packet of at most 64 MiB that comes when there is a next hop on an open socket: its payload, and nothing else, goes to the
  -- next hop, wherever the packet says that it is bound for, and the packet is taken from the
  -- client's stream.
  pub on_client_data-forward :
      (fd : ℕ) (packet rest : Bytes) (s : Session env.io.World I) (q : ClientQuery)
      (c : ConnectInfo I)
      → s.next_hop ≡ some fd
      → connfd ≢ fd
      → incoming s.world connfd ≡ frame packet ++ rest
      → length packet ≤ max_packet
      → server.server_decode s.conn (received packet) ≡ (ok q, c)
      → is_dns_query q ≡ false
      → writable s.world fd ≡ true
      → (w : env.io.World) × (on_client_data env server bind_port connfd s
          ≡ (ok tt, record { world = w; conn = c; next_hop = s.next_hop }))
        × (outgoing w fd ≡ outgoing s.world fd ++ q.payload.str)
        × (incoming w connfd ≡ rest)
        × (outgoing w connfd ≡ outgoing s.world connfd)
        × (writable w connfd ≡ writable s.world connfd)
        × (writable w fd ≡ writable s.world fd)
  unfolding on_client_data next_hop_for
  on_client_data-forward fd packet rest s q c hop ne e fits dec no_dns open_w =
      let v = after_recv env.io str connfd packet s.world in
      let (r, p) = recv_length_and_packet_lem env.io str connfd packet rest s.world e fits in
      let other = after_recv-Same env.io str connfd fd packet s.world ne in
      let sent = str.sendn_all fd q.payload.str v (other.still_open ∙ open_w) in
      (
        emit fd q.payload.str v,
        ground (arith, r, dec, no_dns, sent),
        str.outgoing-emit fd fd q.payload.str v ∙ rw (==_refl fd, other.sent) refl,
        str.incoming-emit fd connfd q.payload.str v ∙ p.unread,
        str.outgoing-emit fd connfd q.payload.str v ∙ rw (==_ne fd connfd (λ e. ne (sym e))) p.sent,
        str.writable-emit fd connfd q.payload.str v ∙ p.still_open,
        str.writable-emit fd fd q.payload.str v ∙ other.still_open,
      )

  -- What the first data packet does to the two sockets, when the connection that it asks for succeeds.
  pub on_client_data-connect :
      (fd : ℕ) (packet rest : Bytes) (s : Session env.io.World I) (q : ClientQuery)
      (c : ConnectInfo I) (u : env.io.World)
      → s.next_hop ≡ none
      → connfd ≢ fd
      → incoming s.world connfd ≡ frame packet ++ rest
      → length packet ≤ max_packet
      → server.server_decode s.conn (received packet) ≡ (ok q, c)
      → is_dns_query q ≡ false
      → env.quick_connect
          (ip_array_to_str q.destination_ip)
          q.destination_port
          (after_recv env.io str connfd packet s.world)
        ≡ (ok fd, u)
      → writable u fd ≡ true
      → (w : env.io.World) × (on_client_data env server bind_port connfd s
          ≡ (ok tt, record { world = w; conn = c; next_hop = some fd }))
        × (outgoing w fd ≡ outgoing u fd ++ q.payload.str)
        × (writable w fd ≡ writable u fd)
        × Same env.io str connfd u w
        × Taken env.io str connfd rest s.world (after_recv env.io str connfd packet s.world)
        × Same env.io str fd s.world (after_recv env.io str connfd packet s.world)
  unfolding on_client_data next_hop_for
  on_client_data-connect fd packet rest s q c u hop ne e fits dec no_dns connected open_w =
      let (r, p) = recv_length_and_packet_lem env.io str connfd packet rest s.world e fits in
      let sent = str.sendn_all fd q.payload.str u open_w in
      (
        emit fd q.payload.str u,
        ground (arith, r, dec, no_dns, connected, sent),
        str.outgoing-emit fd fd q.payload.str u ∙ rw (==_refl fd) refl,
        str.writable-emit fd fd q.payload.str u,
        emit-Same env.io str fd connfd q.payload.str u (λ e. ne (sym e)),
        p,
        after_recv-Same env.io str connfd fd packet s.world ne,
      )

  -- The first data packet, of at most 64 MiB: the server connects to the address in the packet, in
  -- text, and to its port; if that succeeds, that connection becomes the next hop, and the payload
  -- goes to it.
  pub on_client_data-first :
      (fd : ℕ) (packet rest : Bytes) (s : Session env.io.World I) (q : ClientQuery)
      (c : ConnectInfo I) (u : env.io.World)
      → s.next_hop ≡ none
      → incoming s.world connfd ≡ frame packet ++ rest
      → length packet ≤ max_packet
      → server.server_decode s.conn (received packet) ≡ (ok q, c)
      → is_dns_query q ≡ false
      → env.quick_connect
          (ip_array_to_str q.destination_ip)
          q.destination_port
          (after_recv env.io str connfd packet s.world)
        ≡ (ok fd, u)
      → writable u fd ≡ true
      → (w : env.io.World) × (on_client_data env server bind_port connfd s
          ≡ (ok tt, record { world = w; conn = c; next_hop = some fd }))
        × (outgoing w fd ≡ outgoing u fd ++ q.payload.str)
  unfolding on_client_data next_hop_for
  on_client_data-first fd packet rest s q c u hop e fits dec no_dns connected open_w =
      let v = after_recv env.io str connfd packet s.world in
      let (r, p) = recv_length_and_packet_lem env.io str connfd packet rest s.world e fits in
      let sent = str.sendn_all fd q.payload.str u open_w in
      (
        emit fd q.payload.str u,
        ground (arith, r, dec, no_dns, connected, sent),
        str.outgoing-emit fd fd q.payload.str u ∙ rw (==_refl fd) refl,
      )

  -- A DNS query whose name resolves: no next hop is needed or made, and the client, over an open
  -- socket, is sent one packet, the encoded response that holds the address, if neither packet is
  -- longer than 64 MiB.
  pub on_client_data-dns :
      (packet rest domain : Bytes) (a : Address) (s : Session env.io.World I) (q : ClientQuery)
      (c c' : ConnectInfo I) (encoded : BinarySafeString) (u : env.io.World)
      → incoming s.world connfd ≡ frame packet ++ rest
      → length packet ≤ max_packet
      → server.server_decode s.conn (received packet) ≡ (ok q, c)
      → is_dns_query q ≡ true
      → get_domain_from_dns_query q ≡ ok domain
      → resolve_domain_once env domain (after_recv env.io str connfd packet s.world) ≡ (ok a, u)
      → server.server_encode c (record {
        destination_ip = address_bytes a;
        destination_port = q.destination_port;
        payload = received [];
      })
        ≡ (ok encoded, c')
      → length encoded.str ≤ max_packet
      → writable u connfd ≡ true
      → (w : env.io.World) × (on_client_data env server bind_port connfd s
          ≡ (ok tt, record { world = w; conn = c'; next_hop = s.next_hop }))
        × Sent env.io str connfd (frame encoded.str) u w
  unfolding on_client_data answer_dns
  on_client_data-dns packet rest domain a s q c c' encoded u e fits dec dns name found enc short
        open_w =
      let (r, p) = recv_length_and_packet_lem env.io str connfd packet rest s.world e fits in
      let (t, z) = send_length_and_packet_lem env.io str connfd encoded.str u open_w short in
      (
        after_send env.io str connfd encoded.str u,
        ground (arith, r, dec, dns, name, found, enc, t),
        z,
      )

  -- What the next hop sends goes to the client, over an open socket, as one packet, which encodes it
  -- as a payload, if that is no longer than 64 MiB; when it sends no more, the loop ends.
  pub on_next_hop_data_lem :
      (fd : ℕ) (bytes : Bytes) (s : Session env.io.World I) (c : ConnectInfo I)
      (encoded : BinarySafeString) (u : env.io.World)
      → env.quick_recvall fd s.world ≡ (ok bytes, u)
      → server.server_encode s.conn (record {
        destination_ip = replicate 16 0;
        destination_port = bind_port;
        payload = received bytes;
      })
        ≡ (ok encoded, c)
      → length encoded.str ≤ max_packet
      → writable u connfd ≡ true
      → (w : env.io.World) × (on_next_hop_data env server bind_port connfd fd s ≡ (
          if length bytes == 0
          then (ok closed, record s { world = u })
          else (ok running, record { world = w; conn = c; next_hop = s.next_hop })))
        × Sent env.io str connfd (frame encoded.str) u w
        × ((g : ℕ) → connfd ≢ g → Same env.io str g u w)
  unfolding on_next_hop_data
  on_next_hop_data_lem fd bytes s c encoded u got enc short open_w =
      let (t, z) = send_length_and_packet_lem env.io str connfd encoded.str u open_w short in
      (
        after_send env.io str connfd encoded.str u,
        ground (arith, got, enc, t),
        z,
        λ g ne. after_send-Same env.io str connfd g encoded.str u ne,
      )
