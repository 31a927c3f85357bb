-- ===== src/Tunnel/Session.antt =====
-- A whole connection over the tunnel of src/native/src/socks5.cc and tunnel.cc: the two ends authenticate, and then
-- convey what they read.
use snakesocks.Base.{
  ◌<◌, ◌^◌, ℕ, ◌≡◌, ◌≢◌, refl, ◌∙◌, true, false, none, inr, List, [], ◌++◌, drop-append, append-nil,
}
use snakesocks.Io.{ok, running, Streams}
use snakesocks.Module.{
  ClientQuery, ClientFunctions, ServerFunctions, IsQuery, make_auth_query, on_auth_reply, received,
}
use snakesocks.NetLib.{is_dns_query}
use snakesocks.NetLib.Frames.{frame}
use snakesocks.Environment.{Environment}
use snakesocks.Inbound.{Session}
use snakesocks.Outbound.{Channel}
use snakesocks.Outbound.Laws.{do_auth_lem}
use snakesocks.Tunnel.{bytes_of}
use snakesocks.Tunnel.Login.{Exchange, serve_auth_lem}
use snakesocks.Tunnel.Transport.{sent_since}
use snakesocks.Tunnel.Pipeline.{PipelineLaws}
use snakesocks.Tunnel.Conversation.{Both, Event, told_local, told_hop, all_told}
use snakesocks.Tunnel.Conversation.Dialling.{Dials}
use snakesocks.Tunnel.Conversation.Draining.{Network}
use snakesocks.Tunnel.Conversation.Refinement.{Holds, RunOf}
use snakesocks.Tunnel.Conversation.Delivery.{idle, Run-delivers}

module _ {I : Type 0} (client_env server_env : Environment) (cs : Streams client_env.io)
    (ss : Streams server_env.io) (client : ClientFunctions I) (server : ServerFunctions I)
    (laws : PipelineLaws client server) (bind_port m_fd tunnel_fd connfd hop : ℕ)
    (template : ClientQuery) where
  -- Both ends after the authentication, with nothing on its way.
  abbrev pub logged_in :
      Channel client_env.io.World I
      → Session server_env.io.World I
      → Both client_env.io.World server_env.io.World I
  logged_in s t = record {
    client = (snakesocks.Outbound.do_auth client_env client tunnel_fd s).1;
    server = (snakesocks.Inbound.do_auth server_env server bind_port connfd t).1;
    up = [];
    down = [];
    outcome = ok running;
  }

  -- Before the authentication: all sockets are open, no next hop is connected, each end has exactly the
  -- other's message before it, and the modules accept each other.
  pub record Meets (s : Channel client_env.io.World I) (t : Session server_env.io.World I)
      : Type 0 where
    pub exchange : Exchange client server (λ c d. laws.Client c × laws.Server d) s.conn t.conn
    pub no_hop : t.next_hop ≡ none
    pub tunnel_open : cs.writable s.world tunnel_fd ≡ true
    pub local_open : cs.writable s.world m_fd ≡ true
    pub connfd_open : ss.writable t.world connfd ≡ true
    pub asks : ss.incoming t.world connfd ≡ frame (bytes_of (make_auth_query client s.conn))
    pub replies :
        cs.incoming s.world tunnel_fd
        ≡ sent_since server_env ss connfd t.world
            (snakesocks.Inbound.do_auth server_env server bind_port connfd t).1.world

  module _ (apart : tunnel_fd ≢ m_fd) (apart' : connfd ≢ hop) where
    pub logged_in-Holds :
        (s : Channel client_env.io.World I) (t : Session server_env.io.World I)
        → Meets s t
        → ((snakesocks.Outbound.do_auth client_env client tunnel_fd s).0 ≡ ok true)
          × ((snakesocks.Inbound.do_auth server_env server bind_port connfd t).0 ≡ ok true)
          × (ss.outgoing (logged_in s t).server.world hop ≡ ss.outgoing t.world hop)
          × (cs.outgoing (logged_in s t).client.world m_fd ≡ cs.outgoing s.world m_fd)
          × Holds client_env server_env cs ss client server laws bind_port m_fd tunnel_fd connfd hop
              template
              (logged_in s t)
              (idle client_env server_env cs ss client server laws bind_port m_fd tunnel_fd connfd
                hop template
                (logged_in s t))
    unfolding make_auth_query on_auth_reply
    logged_in-Holds s t m =
        let (query, reply, c1, c2, s1, asked, judged, accepted, (holds_c, holds_s), short, short') =
          m.exchange in
        let (w, f, out, left, open_w, others) =
          serve_auth_lem server_env ss server bind_port connfd query reply [] t s1
            (rw (asked, ← append-nil (frame query)) at m.asks) judged short short' m.connfd_open in
        let told : sent_since server_env ss connfd t.world w ≡ frame reply =
          rw out (drop-append (ss.outgoing t.world connfd) (frame reply)) in
        let back : cs.incoming s.world tunnel_fd ≡ frame reply ++ [] =
          rw (f, told, ← append-nil (frame reply)) at m.replies in
        let (v, e, out', left', open_v, others') =
          do_auth_lem client_env cs client tunnel_fd (received query) reply [] s c1 asked short
            short' m.tunnel_open back in
        let e' : snakesocks.Outbound.do_auth client_env client tunnel_fd s
            ≡ (ok true, record { world = v; conn = c2 }) =
          e ∙ rw accepted refl in
        let at_hop = others hop apart' in
        let at_local = others' m_fd apart in
        rw (e', f)
          (
            refl,
            refl,
            at_hop.sent,
            at_local.sent,
            record {
              client_holds = holds_c;
              server_holds = holds_s;
              has_hop = inr m.no_hop;
              up_wire = rw left refl;
              down_wire = rw left' refl;
              hop_got = refl;
              local_got = refl;
              tunnel_open = open_v ∙ m.tunnel_open;
              local_open = at_local.still_open ∙ m.local_open;
              connfd_open = open_w ∙ m.connfd_open;
              hop_open = λ has. absurd (cc (has, m.no_hop));
              well = refl;
            },
          )

  module _ (isq : IsQuery template) (no_dns : is_dns_query template ≡ false)
      (port : bind_port < 2 ^ 16) (apart : tunnel_fd ≢ m_fd) (apart' : connfd ≢ hop)
      (dial : Dials server_env ss connfd hop) (cn : Network client_env.io cs)
      (sn : Network server_env.io ss) where
    -- From two ends over open sockets that have not authenticated, if each has just the other's message
    -- before it and their modules accept these, the server has no next hop, the connection to the next hop will succeed and the network is able to deliver:
    -- both ends authenticate, and after any turns from there on they and the network can take turns, with nothing
    -- more read from outside, such that since before the authentication exactly what was read from the local
    -- program has come out at the next hop, and what was read from the next hop at the local program.
    -- The destination must not be the address of zeros, which marks a query for a domain, and the module must keep
    -- `PipelineLaws`. A read from outside gives between 1 and 2 ^ 26 bytes less the module's overhead, and a
    -- send on an open socket returns.
    -- The query's template is within the ranges of its types, the server's port below 2 ^ 16, and at each end
    -- the two descriptors differ.
    pub session-delivers :
        (s : Channel client_env.io.World I) (t : Session server_env.io.World I)
        (u : Both client_env.io.World server_env.io.World I) (es : List Event)
        → Meets s t
        → RunOf client_env server_env cs ss client server laws bind_port m_fd tunnel_fd connfd hop
            template
            (logged_in s t)
            es
            u
        → ((snakesocks.Outbound.do_auth client_env client tunnel_fd s).0 ≡ ok true)
          × ((snakesocks.Inbound.do_auth server_env server bind_port connfd t).0 ≡ ok true)
          × (v : Both client_env.io.World server_env.io.World I) × (fs : List Event) × RunOf
              client_env server_env cs ss client server laws bind_port m_fd tunnel_fd connfd hop
              template u fs v
          × (all_told told_local fs ≡ [])
          × (all_told told_hop fs ≡ [])
          × (ss.outgoing v.server.world hop ≡ ss.outgoing t.world hop ++ all_told told_local es)
          × (cs.outgoing v.client.world m_fd ≡ cs.outgoing s.world m_fd ++ all_told told_hop es)
    session-delivers s t u es m run =
        let (a, b, at_hop, at_local, h) = logged_in-Holds apart apart' s t m in
        let (v, fs, later, none_local, none_hop, out, back) =
          Run-delivers client_env server_env cs ss client server laws bind_port m_fd tunnel_fd
            connfd hop template isq no_dns port apart apart' dial cn sn (logged_in s t) u es h
            run in
        (a, b, v, fs, later, none_local, none_hop, rw (← at_hop) out, rw (← at_local) back)
