-- ===== src/Tunnel/Login.antt =====
-- The authentication of src/native/src/tunnel.cc at both ends of the tunnel: outbound_tunnel::doAuth and
-- inbound_tunnel::doAuth, with any module whose two halves fit each other.
use snakesocks.Base.{◌≤◌, ◌≡◌, ◌≢◌, refl, ap, ◌∙◌, ℕ, true, false, ◌++◌, length, arith, drop-append}
use snakesocks.Io.{Bytes, ok, Streams}
use snakesocks.Module.{
  ConnectInfo, ClientFunctions, ServerFunctions, received, make_auth_query, on_auth_reply,
}
use snakesocks.NetLib.{max_packet}
use snakesocks.NetLib.Frames.{
  frame, after_send, after_recv, Same, Same-trans, after_send-Same, after_recv-Same,
  send_length_and_packet_lem, recv_length_and_packet_lem,
}
use snakesocks.Environment.{Environment}
use snakesocks.Inbound.{Session}
use snakesocks.Outbound.{Channel}
use snakesocks.Outbound.Laws.{do_auth_lem}
use snakesocks.Tunnel.{bytes_of, ModuleLaws}
use snakesocks.Tunnel.Transport.{sent_since}

-- One exchange in which two ends accept each other, after which `Link` holds between them.
abbrev pub Exchange :
    {I : Type 0}
    → ClientFunctions I
    → ServerFunctions I
    → (ConnectInfo I → ConnectInfo I → Type 0)
    → ConnectInfo I
    → ConnectInfo I
    → Type 0
Exchange {I} client server Link c s =
    (query : Bytes) × (reply : Bytes) × (c1 : ConnectInfo I) × (c2 : ConnectInfo I)
    × (s1 : ConnectInfo I) × (client.client_make_auth_query c ≡ (ok (received query), c1))
    × (server.server_make_auth_reply s (received query) ≡ (ok (received reply, false), s1))
    × (client.client_deal_auth_reply c1 (received reply) ≡ (ok true, c2))
    × Link c2 s1
    × (length query ≤ max_packet)
    × (length reply ≤ max_packet)

-- What stdafx.h asks of a module's authentication: ends with one passphrase, not too long, accept each
-- other in one exchange, and are linked by it.
pub record LoginLaws {I : Type 0} (client : ClientFunctions I) (server : ServerFunctions I)
    (laws : ModuleLaws client server) : Type 0 where
  pub exchange :
      (c s : ConnectInfo I)
      → s.passphrase.str ≡ c.passphrase.str
      → length c.passphrase.str ≤ max_packet
      → Exchange client server laws.Link c s

module _ {I : Type 0} (env : Environment) (str : Streams env.io) (server : ServerFunctions I)
    (bind_port connfd : ℕ) where
  -- The server's end: one pack comes in, and one goes out.
  pub serve_auth_lem :
      (query reply rest : Bytes) (t : Session env.io.World I) (s1 : ConnectInfo I)
      → str.incoming t.world connfd ≡ frame query ++ rest
      → server.server_make_auth_reply t.conn (received query) ≡ (ok (received reply, false), s1)
      → length query ≤ max_packet
      → length reply ≤ max_packet
      → str.writable t.world connfd ≡ true
      → (w : env.io.World) × (snakesocks.Inbound.do_auth env server bind_port connfd t
          ≡ (ok true, record t { world = w; conn = s1 }))
        × (str.outgoing w connfd ≡ str.outgoing t.world connfd ++ frame reply)
        × (str.incoming w connfd ≡ rest)
        × (str.writable w connfd ≡ str.writable t.world connfd)
        × ((g : ℕ) → connfd ≢ g → Same env.io str g t.world w)
  unfolding snakesocks.Inbound.do_auth
  serve_auth_lem query reply rest t s1 e judged short short' open_w =
      let (h, p) = recv_length_and_packet_lem env.io str connfd query rest t.world e short in
      let u = after_recv env.io str connfd query t.world in
      let (k, z) =
        send_length_and_packet_lem env.io str connfd reply u (p.still_open ∙ open_w) short' in
      (
        after_send env.io str connfd reply u,
        ground (arith, h, judged, k),
        z.sent ∙ ap (λ x. x ++ frame reply) p.sent,
        z.unread ∙ p.unread,
        z.still_open ∙ p.still_open,
        λ g ne.
            Same-trans env.io str g t.world u (after_send env.io str connfd reply u)
              (after_recv-Same env.io str connfd g query t.world ne)
              (after_send-Same env.io str connfd g reply u ne),
      )

module _ {I : Type 0} (client_env server_env : Environment) (cs : Streams client_env.io)
    (ss : Streams server_env.io) (client : ClientFunctions I) (server : ServerFunctions I)
    (laws : ModuleLaws client server) (login_laws : LoginLaws client server laws)
    (bind_port tunnel_fd connfd : ℕ) where
  -- Over open sockets, with a module that keeps `LoginLaws`, if both ends have the same passphrase, of at most
  -- 64 MiB, the server has before it the query that the
  -- client's module makes, as a pack, and the client what the server sends on that, then the client sends
  -- just that query, both ends accept each other, nothing else is read, and they are linked.
  pub login :
      (rest rest' : Bytes) (s : Channel client_env.io.World I) (t : Session server_env.io.World I)
      → t.conn.passphrase.str ≡ s.conn.passphrase.str
      → length s.conn.passphrase.str ≤ max_packet
      → cs.writable s.world tunnel_fd ≡ true
      → ss.writable t.world connfd ≡ true
      → ss.incoming t.world connfd ≡ frame (bytes_of (make_auth_query client s.conn)) ++ rest
      → cs.incoming s.world tunnel_fd
        ≡ sent_since server_env ss connfd t.world
            (snakesocks.Inbound.do_auth server_env server bind_port connfd t).1.world
          ++ rest'
      → let a = snakesocks.Outbound.do_auth client_env client tunnel_fd s in
        let b = snakesocks.Inbound.do_auth server_env server bind_port connfd t in
        (a.0 ≡ ok true)
        × (b.0 ≡ ok true)
        × laws.Link a.1.conn b.1.conn
        × (cs.outgoing a.1.world tunnel_fd
            ≡ cs.outgoing s.world tunnel_fd ++ frame (bytes_of (make_auth_query client s.conn)))
        × (cs.incoming a.1.world tunnel_fd ≡ rest')
        × (ss.incoming b.1.world connfd ≡ rest)
  unfolding make_auth_query on_auth_reply
  login rest rest' s t same short open_c open_s stream back =
      let (query, reply, c1, c2, s1, asked, judged, accepted, link, short_q, short_r) =
        login_laws.exchange s.conn t.conn same short in
      let (w, f, out, left, _, _) =
        serve_auth_lem server_env ss server bind_port connfd query reply rest t s1
          (rw asked at stream) judged short_q short_r open_s in
      let told : sent_since server_env ss connfd t.world w ≡ frame reply =
        rw out (drop-append (ss.outgoing t.world connfd) (frame reply)) in
      let back' : cs.incoming s.world tunnel_fd ≡ frame reply ++ rest' =
        rw told at (rw f at back) in
      let (v, e, out', left', _, _) =
        do_auth_lem client_env cs client tunnel_fd (received query) reply rest' s c1 asked short_q
          short_r open_c back' in
      let e' : snakesocks.Outbound.do_auth client_env client tunnel_fd s
          ≡ (ok true, record { world = v; conn = c2 }) =
        e ∙ rw accepted refl in
      rw (e', f, asked) (refl, refl, link, out', left', left)
