-- ===== src/Tunnel/Conversation/Delivery.antt =====
-- What comes out of the tunnel of src/native/src/socks5.cc and tunnel.cc: what went in, in its order; and all of
-- it, once the network and both ends have done what they can.
use snakesocks.Base.{◌<◌, ◌^◌, ℕ, ◌≡◌, ◌≢◌, refl, ◌∙◌, false, List, [], ◌++◌, append-nil}
use snakesocks.Io.{Bytes, running, ok, Streams}
use snakesocks.Module.{ClientQuery, ClientFunctions, ServerFunctions, IsQuery}
use snakesocks.NetLib.{is_dns_query}
use snakesocks.Environment.{Environment}
use snakesocks.Tunnel.Pipeline.{PipelineLaws}
use snakesocks.Tunnel.Conversation.Dialling.{Dials}
use snakesocks.Tunnel.Conversation.{Both, Event, told_local, told_hop, all_told}
use snakesocks.Tunnel.Conversation.Conduit.{Conduit, concat, ConveysAll-for, emptied}
use snakesocks.Tunnel.Conversation.Refinement.{System, Holds, RunOf, Run-ConveysAll}
use snakesocks.Tunnel.Conversation.Draining.{Network, and_then, settle_up, settle_down}

module _ {I : Type 0} (client_env server_env : Environment) (cs : Streams client_env.io)
    (ss : Streams server_env.io) (client : ClientFunctions I) (server : ServerFunctions I)
    (laws : PipelineLaws client server) (bind_port m_fd tunnel_fd connfd hop : ℕ)
    (template : ClientQuery) where
  abbrev HoldsOf :
      System client_env server_env cs ss client server laws bind_port m_fd tunnel_fd connfd hop
        template
      → Conduit
      → Type 0
  HoldsOf =
      Holds client_env server_env cs ss client server laws bind_port m_fd tunnel_fd connfd hop
        template

  -- Nothing is on its way.
  abbrev pub idle : Both client_env.io.World server_env.io.World I → Conduit
  idle t = record {
    up = [];
    down = [];
    at_hop = ss.outgoing t.server.world hop;
    at_local = cs.outgoing t.client.world m_fd;
  }

  module _ (isq : IsQuery template) (no_dns : is_dns_query template ≡ false)
      (port : bind_port < 2 ^ 16) (apart : tunnel_fd ≢ m_fd) (apart' : connfd ≢ hop)
      (dial : Dials server_env ss connfd hop) where
    -- From two ends that have authenticated, over open sockets, with nothing on its way, and with a next hop
    -- or one to which the connection will succeed when the first packet asks for it, in whatever order the turns are taken: no turn fails, and what has come out at the next hop is a
    -- beginning of what was read from the local program since, as what has come out there is of what was
    -- read from the next hop, byte for byte.
    -- The destination must not be the address of zeros, which marks a query for a domain, and the module must keep
    -- `PipelineLaws`. A read from outside gives between 1 and 2 ^ 26 bytes less the module's overhead, and a
    -- send on an open socket returns.
    -- The query's template is within the ranges of its types, the server's port below 2 ^ 16, and at each end
    -- the two descriptors differ.
    pub Run-in_order :
        (t u : Both client_env.io.World server_env.io.World I) (es : List Event)
        → HoldsOf t (idle t)
        → RunOf client_env server_env cs ss client server laws bind_port m_fd tunnel_fd connfd hop
            template t es u
        → (u.outcome ≡ ok running)
          × (up : Bytes) × (down : Bytes) × (ss.outgoing u.server.world hop ++ up
              ≡ ss.outgoing t.server.world hop ++ all_told told_local es)
          × (cs.outgoing u.client.world m_fd ++ down
              ≡ cs.outgoing t.client.world m_fd ++ all_told told_hop es)
    Run-in_order t u es h run =
        let (b, moves, h') =
          Run-ConveysAll client_env server_env cs ss client server laws bind_port m_fd tunnel_fd
            connfd hop template isq no_dns port apart apart' dial (idle t) h run in
        let (to_hop, to_local) = ConveysAll-for moves in
        (
          h'.well,
          concat b.up,
          concat b.down,
          rw h'.hop_got (to_hop ∙ rw (append-nil (ss.outgoing t.server.world hop)) refl),
          rw h'.local_got (to_local ∙ rw (append-nil (cs.outgoing t.client.world m_fd)) refl),
        )

    module _ (cn : Network client_env.io cs) (sn : Network server_env.io ss) where
      -- From two ends that have authenticated, over open sockets, with nothing on its way, and with a next hop
      -- or one to which the connection will succeed when the first packet asks for it, over a network that
      -- is able to deliver: after any turns, both ends and the network can take turns, with nothing more
      -- read from outside, such that exactly what was read from the local program has come out at the next
      -- hop, and what was read from the next hop at the local program.
      -- The destination must not be the address of zeros, which marks a query for a domain, and the module must keep
      -- `PipelineLaws`. A read from outside gives between 1 and 2 ^ 26 bytes less the module's overhead, and a
      -- send on an open socket returns.
      -- The query's template is within the ranges of its types, the server's port below 2 ^ 16, and at each end
      -- the two descriptors differ.
      pub Run-delivers :
          (t u : Both client_env.io.World server_env.io.World I) (es : List Event)
          → HoldsOf t (idle t)
          → RunOf client_env server_env cs ss client server laws bind_port m_fd tunnel_fd connfd hop
              template t es u
          → (v : Both client_env.io.World server_env.io.World I) × (fs : List Event) × RunOf
              client_env server_env cs ss client server laws bind_port m_fd tunnel_fd connfd hop
              template u fs v
            × (all_told told_local fs ≡ [])
            × (all_told told_hop fs ≡ [])
            × (ss.outgoing v.server.world hop
                ≡ ss.outgoing t.server.world hop ++ all_told told_local es)
            × (cs.outgoing v.client.world m_fd
                ≡ cs.outgoing t.client.world m_fd ++ all_told told_hop es)
      Run-delivers t u es h run =
          let (a, moves, g) =
            Run-ConveysAll client_env server_env cs ss client server laws bind_port m_fd tunnel_fd
              connfd hop template isq no_dns port apart apart' dial (idle t) h run in
          let (v, b, p, g', up_done, _) =
            settle_up client_env server_env cs ss client server laws bind_port m_fd tunnel_fd connfd
              hop template isq no_dns port apart apart' dial cn sn u a g in
          let (x, c, q, g'', down_done, still) =
            settle_down client_env server_env cs ss client server laws bind_port m_fd tunnel_fd
              connfd hop template isq no_dns port apart apart' dial cn sn v b g' in
          let both =
            and_then client_env server_env cs ss client server laws bind_port m_fd tunnel_fd connfd
              hop template isq no_dns port apart apart' dial u v x a b c p q in
          let (out, back) =
            emptied moves both.moves both.nothing_local both.nothing_hop refl refl (still ∙ up_done)
              down_done in
          (
            x,
            both.events,
            both.run,
            both.nothing_local,
            both.nothing_hop,
            g''.hop_got ∙ out,
            g''.local_got ∙ back,
          )
