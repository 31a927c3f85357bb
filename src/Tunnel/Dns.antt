-- ===== src/Tunnel/Dns.antt =====
-- A domain's way through the tunnel and the address's way back: dns_pkgs of src/native/src/socks5.cc at
-- the client, and the DNS branch of dealConnectionImpl of src/native/src/tunnel.cc at the server.
use mathlib.Core.Path.{subst}
use snakesocks.Base.{
  ℕ, ◌+◌, ◌≤◌, ◌<◌, ◌^◌, ◌%◌, ◌≡◌, ◌≢◌, refl, ◌∙◌, sym, ap, true, false, [], ◌∷◌, ◌++◌, All, length,
  replicate, arith, length-append, All-append,
}
use snakesocks.Io.{IsByte, Bytes, ok, Streams}
use snakesocks.Module.{
  ClientQuery, ConnectInfo, ClientFunctions, ServerFunctions, received, decode, IsQuery, as_read,
}
use snakesocks.NetLib.{
  dns_head, assemble_dns_query, is_dns_query, get_domain_from_dns_query, max_packet,
}
use snakesocks.NetLib.Dns.{IsNonzero}
use snakesocks.NetLib.Frames.{Sent, frame, after_recv}
use snakesocks.Environment.{Environment, v4, resolve_domain_once, address_bytes}
use snakesocks.Addr.{set_domain, set_ipv4, make_dns_query_body, set_ipv6, is_unset}
use snakesocks.Addr.Laws.{
  make_dns_query_body_lem, try_6to4_lem, sum, is_unset_iff, all_zero-replicate,
}
use snakesocks.Inbound.{Session, on_client_data}
use snakesocks.Inbound.Forward.{on_client_data-dns}
use snakesocks.Outbound.{Channel}
use snakesocks.Relay.{dns_pkgs, resolved}
use snakesocks.Relay.Packs.{dns_pkgs_lem}
use snakesocks.Tunnel.{bytes_of, ModuleLaws}
use snakesocks.Tunnel.Transport.{sent_since, sent_since-Sent}

set_ipv6-unset :
    (a b c d port : ℕ)
    → (a + b + c + d) % 256 ≢ 0
    → is_unset (set_ipv6 (a ∷ b ∷ c ∷ d ∷ replicate 12 0) port) ≡ false
unfolding set_ipv6 sum
set_ipv6-unset a b c d port h =
    ground (arith, is_unset_iff (set_ipv6 (a ∷ b ∷ c ∷ d ∷ replicate 12 0) port))

-- What a response with an IPv4 address means to the client.
resolved-v4 :
    (a b c d port : ℕ)
    → (a + b + c + d) % 256 ≢ 0
    → (response : ClientQuery) → response.destination_ip ≡ address_bytes (v4 (a ∷ b ∷ c ∷ d ∷ []))
    → resolved port response ≡ ok (set_ipv4 (a ∷ b ∷ c ∷ d ∷ []) port)
unfolding resolved address_bytes
resolved-v4 a b c d port h response e =
    rw
      (
        e,
        set_ipv6-unset a b c d port h,
        try_6to4_lem a b c d port (replicate 12 0),
        all_zero-replicate 12,
      )
      refl

make_dns_query_body-IsQuery :
    (name : Bytes) (port : ℕ)
    → All IsByte name
    → length name < 2 ^ 16
    → port < 2 ^ 16
    → IsQuery (make_dns_query_body (set_domain name port))
unfolding make_dns_query_body assemble_dns_query set_domain
make_dns_query_body-IsQuery name port bs short range = record {
  address_length = refl;
  address_bytes = omega arith;
  port_range = range;
  payload_length = rw (length-append name (0 ∷ [])) (omega arith);
  payload_bytes =
      All-append IsByte dns_head (name ++ (0 ∷ [])) (omega arith)
        (All-append IsByte name (0 ∷ []) bs (omega arith));
}

query-length :
    (name : Bytes) (port : ℕ)
    → length (make_dns_query_body (set_domain name port)).payload.str ≡ length name + 33
unfolding make_dns_query_body assemble_dns_query set_domain
query-length name port = rw (length-append name (0 ∷ [])) (omega arith)

abbrev answer_for : ℕ → ℕ → ℕ → ℕ → ℕ → ClientQuery
answer_for a b c d port = record {
  destination_ip = address_bytes (v4 (a ∷ b ∷ c ∷ d ∷ []));
  destination_port = port;
  payload = received [];
}

answer_for-IsQuery :
    (a b c d port : ℕ)
    → All IsByte (a ∷ b ∷ c ∷ d ∷ [])
    → port < 2 ^ 16
    → IsQuery (answer_for a b c d port)
unfolding address_bytes
answer_for-IsQuery a b c d port bs range = record {
  address_length = refl;
  address_bytes = omega arith;
  port_range = range;
  payload_length = omega arith;
  payload_bytes = tt;
}

module _ {I : Type 0} (client_env server_env : Environment) (cs : Streams client_env.io)
    (ss : Streams server_env.io) (client : ClientFunctions I) (server : ServerFunctions I)
    (laws : ModuleLaws client server) (bind_port m_fd tunnel_fd connfd : ℕ) where
  -- The server's part, once the module has done its own.
  answered :
      (name packet rest r : Bytes) (a b c d port : ℕ) (t : Session server_env.io.World I)
      (t1 t3 : ConnectInfo I) (u : server_env.io.World)
      → All IsNonzero name
      → length packet ≤ max_packet
      → ss.incoming t.world connfd ≡ frame packet ++ rest
      → server.server_decode t.conn (received packet)
        ≡ (ok (as_read (make_dns_query_body (set_domain name port))), t1)
      → resolve_domain_once server_env name (after_recv server_env.io ss connfd packet t.world)
        ≡ (ok (v4 (a ∷ b ∷ c ∷ d ∷ [])), u)
      → server.server_encode t1 (answer_for a b c d port) ≡ (ok (received r), t3)
      → length r ≤ max_packet
      → ss.writable u connfd ≡ true
      → (w : server_env.io.World) × (on_client_data server_env server bind_port connfd t
          ≡ (ok tt, record { world = w; conn = t3; next_hop = t.next_hop }))
        × Sent server_env.io ss connfd (frame r) u w
  unfolding make_dns_query_body set_domain is_dns_query get_domain_from_dns_query
  answered name packet rest r a b c d port t t1 t3 u nz short stream dec found enc fits open_s =
      let (dns, domain) = make_dns_query_body_lem name port nz in
      on_client_data-dns server_env ss server bind_port connfd packet rest name
        (v4 (a ∷ b ∷ c ∷ d ∷ [])) t (as_read (make_dns_query_body (set_domain name port))) t1 t3
        (received r) u stream short dec dns domain found enc fits open_s

  -- The address of a domain. If the two ends are linked and their sockets open, the server has before
  -- it the packet that the client makes for the domain, which has no zero byte and fits a packet, the
  -- resolver finds the IPv4 address a.b.c.d for it, whose bytes do not add up to a multiple of 256,
  -- and the client has before it what the server then sends, then the server keeps its next hop, the
  -- client gets a.b.c.d with the port that was asked for, and they stay linked.
  pub lookup :
      (name packet rest rest' : Bytes) (a b c d port : ℕ) (s : Channel client_env.io.World I)
      (t : Session server_env.io.World I) (ci : ConnectInfo I) (u : server_env.io.World)
      → All IsByte name
      → All IsNonzero name
      → length name < 2 ^ 16
      → port < 2 ^ 16
      → All IsByte (a ∷ b ∷ c ∷ d ∷ [])
      → (a + b + c + d) % 256 ≢ 0
      → length name + 33 + laws.overhead ≤ max_packet
      → laws.Link s.conn t.conn
      → client.client_encode s.conn (make_dns_query_body (set_domain name port))
        ≡ (ok (received packet), ci)
      → ss.incoming t.world connfd ≡ frame packet ++ rest
      → resolve_domain_once server_env name (after_recv server_env.io ss connfd packet t.world)
        ≡ (ok (v4 (a ∷ b ∷ c ∷ d ∷ [])), u)
      → ss.writable u connfd ≡ true
      → cs.writable s.world tunnel_fd ≡ true
      → cs.incoming s.world tunnel_fd
        ≡ sent_since server_env ss connfd u
            (on_client_data server_env server bind_port connfd t).1.world
          ++ rest'
      → let x = dns_pkgs client_env client m_fd tunnel_fd (set_domain name port) s in
        let y = on_client_data server_env server bind_port connfd t in
        (y.0 ≡ ok tt)
        × (y.1.next_hop ≡ t.next_hop)
        × (x.0 ≡ ok (set_ipv4 (a ∷ b ∷ c ∷ d ∷ []) port))
        × (cs.incoming x.1.world tunnel_fd ≡ rest')
        × laws.Link x.1.conn y.1.conn
  unfolding decode
  lookup name packet rest rest' a b c d port s t ci u bs nz short range ip nonzero fits link enc
        stream found open_s open_c back =
      let q : ClientQuery = make_dns_query_body (set_domain name port) in
      let isq = make_dns_query_body-IsQuery name port bs short range in
      let (p, c1, t1, enc1, dec1, link1, _, over1) =
        laws.client_codec s.conn t.conn q link isq (omega (arith, query-length name port)) in
      let same : (ok (received p), c1) ≡ (ok (received packet), ci) = sym enc1 ∙ enc in
      let same_packet : p ≡ packet = ap bytes_of same in
      let link2 : laws.Link ci t1 = subst (λ z. laws.Link z t1) (ap (λ z. z.1) same) link1 in
      let dec2 : server.server_decode t.conn (received packet) ≡ (ok (as_read q), t1) =
        subst (λ z. server.server_decode t.conn (received z) ≡ (ok (as_read q), t1)) same_packet
          dec1 in
      let ip_q = answer_for-IsQuery a b c d port ip range in
      let (r, c3, t3, enc3, dec3, link3, full, over3) =
        laws.server_codec ci t1 (answer_for a b c d port) link2 ip_q (omega arith) in
      let (w, e, z) =
        answered name packet rest r a b c d port t t1 t3 u nz
          (omega (arith, ap length same_packet, query-length name port)) stream dec2 found enc3
          (omega arith) open_s in
      let back' : cs.incoming s.world tunnel_fd ≡ frame r ++ rest' =
        rw (e, sent_since-Sent server_env ss connfd (frame r) u w z) at back in
      let (w', f, out, left) =
        dns_pkgs_lem client_env cs client m_fd tunnel_fd name port r rest' s (received packet) ci c3
          (answer_for a b c d port) enc open_c back' (omega arith) dec3 in
      rw (e, f)
        (refl, refl, resolved-v4 a b c d port nonzero (answer_for a b c d port) refl, left, link3)
