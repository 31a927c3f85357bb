-- ===== src/Tunnel/Conversation/Refinement.antt =====
-- The two ends of src/native/src/socks5.cc and tunnel.cc and the network between them do what a machine of two
-- queues does, in whatever order they take their turns.
use snakesocks.Base.{◌<◌, ◌^◌, ℕ, ◌≡◌, ◌≢◌, ◌∙◌, false, List, [], ◌∷◌, ◌++◌, append_assoc}
use snakesocks.Io.{Bytes, Streams}
use snakesocks.Module.{ClientQuery, ClientFunctions, ServerFunctions, IsQuery}
use snakesocks.NetLib.{is_dns_query}
use snakesocks.Environment.{Environment}
use snakesocks.Tunnel.Pipeline.{PipelineLaws}
use snakesocks.Tunnel.Conversation.Dialling.{Dials}
use snakesocks.Tunnel.Conversation.{
  Both, Meanwhile, Event, Turn, local_speaks, hop_speaks, server_hears, client_hears,
  reaches_server, reaches_client, Run, rests, goes_on,
}
use snakesocks.Tunnel.Conversation.Conduit.{
  Conduit, Conveys, takes_up, takes_down, gives_up, gives_down, idles, ConveysAll, ends, begins,
}
use snakesocks.Tunnel.Conversation.Agreement.{Agrees}
use snakesocks.Tunnel.Conversation.Turns.{
  local_turn-Agrees, hop_turn-Agrees, server_turn-Agrees, client_turn-Agrees,
}

module _ {I : Type 0} (client_env server_env : Environment) (cs : Streams client_env.io)
    (ss : Streams server_env.io) (client : ClientFunctions I) (server : ServerFunctions I)
    (laws : PipelineLaws client server) (bind_port m_fd tunnel_fd connfd hop : ℕ)
    (template : ClientQuery) where
  abbrev pub System : Type 0
  System = Both client_env.io.World server_env.io.World I

  abbrev pub Holds : System → Conduit → Type 0
  Holds = Agrees client_env server_env cs ss client server laws m_fd tunnel_fd connfd hop

  abbrev pub TurnOf : System → Event → System → Type 0
  TurnOf =
      Turn client_env server_env cs ss client server laws.overhead bind_port m_fd tunnel_fd connfd
        hop template

  abbrev pub RunOf : System → List Event → System → Type 0
  RunOf =
      Run client_env server_env cs ss client server laws.overhead bind_port m_fd tunnel_fd connfd
        hop template

  pub reaches_server-Agrees :
      (front rest : Bytes) (w : server_env.io.World) (t : System) (a : Conduit)
      → t.up ≡ front ++ rest
      → Meanwhile server_env.io ss connfd hop front t.server.world w
      → Holds t a
      → Holds (record t { server = record t.server { world = w }; up = rest }) a
  reaches_server-Agrees front rest w t a e m h = record {
    client_holds = h.client_holds;
    server_holds = h.server_holds;
    has_hop = h.has_hop;
    up_wire =
        rw (m.arrived, append_assoc (ss.incoming t.server.world connfd) front rest, ← e) h.up_wire;
    down_wire = h.down_wire;
    hop_got = m.sent_outside ∙ h.hop_got;
    local_got = h.local_got;
    tunnel_open = h.tunnel_open;
    local_open = h.local_open;
    connfd_open = m.still_open ∙ h.connfd_open;
    hop_open = λ e. m.outside_open ∙ h.hop_open e;
    well = h.well;
  }

  pub reaches_client-Agrees :
      (front rest : Bytes) (w : client_env.io.World) (t : System) (a : Conduit)
      → t.down ≡ front ++ rest
      → Meanwhile client_env.io cs tunnel_fd m_fd front t.client.world w
      → Holds t a
      → Holds (record t { client = record t.client { world = w }; down = rest }) a
  reaches_client-Agrees front rest w t a e m h = record {
    client_holds = h.client_holds;
    server_holds = h.server_holds;
    has_hop = h.has_hop;
    up_wire = h.up_wire;
    down_wire =
        rw (m.arrived, append_assoc (cs.incoming t.client.world tunnel_fd) front rest, ← e)
          h.down_wire;
    hop_got = h.hop_got;
    local_got = m.sent_outside ∙ h.local_got;
    tunnel_open = m.still_open ∙ h.tunnel_open;
    local_open = m.outside_open ∙ h.local_open;
    connfd_open = h.connfd_open;
    hop_open = h.hop_open;
    well = h.well;
  }

  module _ (isq : IsQuery template) (no_dns : is_dns_query template ≡ false)
      (port : bind_port < 2 ^ 16) (apart : tunnel_fd ≢ m_fd) (apart' : connfd ≢ hop)
      (dial : Dials server_env ss connfd hop) where
    Turn-Conveys :
        {t u : System} {e : Event} (a : Conduit)
        → Holds t a
        → TurnOf t e u
        → (b : Conduit) × Conveys a e b × Holds u b
    Turn-Conveys {t} a h (local_speaks bytes w got still some_bytes fits bs) = (
      record a { up = a.up ++ (bytes ∷ []) },
      takes_up bytes,
      local_turn-Agrees client_env server_env cs ss client server laws bind_port m_fd tunnel_fd
          connfd hop template isq no_dns port apart apart' dial bytes w t a got still some_bytes
          fits bs h,
    )
    Turn-Conveys {t} a h (hop_speaks bytes w has got still some_bytes fits bs) = (
      record a { down = a.down ++ (bytes ∷ []) },
      takes_down bytes,
      hop_turn-Agrees client_env server_env cs ss client server laws bind_port m_fd tunnel_fd connfd
          hop template isq no_dns port apart apart' dial bytes w t a has got still some_bytes fits
          bs h,
    )
    Turn-Conveys {t} a h (server_hears whole) =
        let (bytes, later, waits, _, h') =
          server_turn-Agrees client_env server_env cs ss client server laws bind_port m_fd tunnel_fd
            connfd hop template isq no_dns port apart apart' dial t a whole h in
        (record a { up = later; at_hop = a.at_hop ++ bytes }, gives_up bytes later waits, h')
    Turn-Conveys {t} a h (client_hears whole) =
        let (bytes, later, waits, h') =
          client_turn-Agrees client_env server_env cs ss client server laws bind_port m_fd tunnel_fd
            connfd hop template isq no_dns port apart apart' dial t a whole h in
        (
          record a { down = later; at_local = a.at_local ++ bytes },
          gives_down bytes later waits,
          h',
        )
    Turn-Conveys {t} a h (reaches_server front rest w e m) =
        (a, idles, reaches_server-Agrees front rest w t a e m h)
    Turn-Conveys {t} a h (reaches_client front rest w e m) =
        (a, idles, reaches_client-Agrees front rest w t a e m h)

    -- If the two ends have authenticated, their sockets are open, and the server has a next hop or will
    -- connect to one successfully when the first packet asks for it, then in whatever order the client's loop, the server's loop and the network take their turns, with data on
    -- their way in both directions at once and packets cut anywhere by the network, every turn is a move of a
    -- machine of two queues, or none: what is read at one end enters a queue, what is written at the other
    -- leaves it. No turn fails, and the bytes between the ends remain the packets for what is queued.
    -- The destination must not be the address of zeros, which marks a query for a domain, and the module must keep
    -- `PipelineLaws`. A read from outside gives between 1 and 2 ^ 26 bytes less the module's overhead, and a
    -- send on an open socket returns.
    -- The query's template is within the ranges of its types, the server's port below 2 ^ 16, and at each end
    -- the two descriptors differ.
    pub Run-ConveysAll :
        {t u : System} {es : List Event} (a : Conduit)
        → Holds t a
        → RunOf t es u
        → (b : Conduit) × ConveysAll a es b × Holds u b
    Run-ConveysAll a h (rests t) = (a, ends a, h)
    Run-ConveysAll a h (goes_on turn run) =
        let (b, move, h') = Turn-Conveys a h turn in
        let (c, moves, h'') = Run-ConveysAll b h' run in (c, begins move moves, h'')
