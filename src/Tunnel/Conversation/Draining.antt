-- ===== src/Tunnel/Conversation/Draining.antt =====
-- How the two ends of src/native/src/socks5.cc and tunnel.cc and the network between them deal with what is on its
-- way, when nothing more is read from outside.
use snakesocks.Base.{◌<◌, ◌^◌, ℕ, ◌≡◌, ◌≢◌, refl, sym, ◌∙◌, false, List, [], ◌∷◌, ◌++◌, append-nil}
use snakesocks.Io.{Bytes, SockIo, Streams}
use snakesocks.Module.{ClientQuery, ClientFunctions, ServerFunctions, IsQuery}
use snakesocks.NetLib.{is_dns_query}
use snakesocks.Environment.{Environment}
use snakesocks.Tunnel.Pipeline.{PipelineLaws}
use snakesocks.Tunnel.Conversation.Dialling.{Dials}
use snakesocks.Tunnel.Conversation.{
  Both, Meanwhile, Event, quiet, told_local, told_hop, all_told, all_told-append, server_turn,
  client_turn, server_hears, client_hears, reaches_server, reaches_client, Run-append, rests,
  goes_on,
}
use snakesocks.Tunnel.Conversation.Conduit.{
  Conduit, gives_up, gives_down, idles, ConveysAll, ends, begins, Conveys, ConveysAll-append,
}
use snakesocks.Tunnel.Conversation.Agreement.{UpPack, DownPack}
use snakesocks.Tunnel.Conversation.Wire.{IsWhole, IsWhole-frame, Wire}
use snakesocks.Tunnel.Conversation.Turns.{server_turn-Agrees, client_turn-Agrees}
use snakesocks.Tunnel.Conversation.Refinement.{
  System, Holds, TurnOf, RunOf, reaches_server-Agrees, reaches_client-Agrees,
}

-- What the network is able to do: bytes that were sent arrive.
pub record Network (io : SockIo) (s : Streams io) : Type 0 where
  pub deliver : ℕ → Bytes → io.World → io.World
  pub delivers :
      (fd outside : ℕ) (bs : Bytes) (w : io.World)
      → Meanwhile io s fd outside bs w (deliver fd bs w)

module _ {I : Type 0} (client_env server_env : Environment) (cs : Streams client_env.io)
    (ss : Streams server_env.io) (client : ClientFunctions I) (server : ServerFunctions I)
    (laws : PipelineLaws client server) (bind_port m_fd tunnel_fd connfd hop : ℕ)
    (template : ClientQuery) where
  abbrev pub HoldsOf :
      System client_env server_env cs ss client server laws bind_port m_fd tunnel_fd connfd hop
        template
      → Conduit
      → Type 0
  HoldsOf =
      Holds client_env server_env cs ss client server laws bind_port m_fd tunnel_fd connfd hop
        template

  module _ (isq : IsQuery template) (no_dns : is_dns_query template ≡ false)
      (port : bind_port < 2 ^ 16) (apart : tunnel_fd ≢ m_fd) (apart' : connfd ≢ hop)
      (dial : Dials server_env ss connfd hop) where
    abbrev pub System' : Type 0
    System' = Both client_env.io.World server_env.io.World I

    -- Turns in which nothing more is read from outside, here and in the machine.
    pub record Quietly (t u : System') (a b : Conduit) : Type 0 where
      pub events : List Event
      pub nothing_local : all_told told_local events ≡ []
      pub nothing_hop : all_told told_hop events ≡ []
      pub run :
          RunOf client_env server_env cs ss client server laws bind_port m_fd tunnel_fd connfd hop
            template t events u
      pub moves : ConveysAll a events b

    stays : (t : System') (a : Conduit) → Quietly t t a a
    stays t a = record {
      events = [];
      nothing_local = refl;
      nothing_hop = refl;
      run = rests t;
      moves = ends a;
    }

    first_turn :
        (t u v : System') (a b c : Conduit)
        → TurnOf client_env server_env cs ss client server laws bind_port m_fd tunnel_fd connfd hop
            template t quiet u
        → Conveys a quiet b
        → Quietly u v b c
        → Quietly t v a c
    first_turn t u v a b c turn move later = record {
      events = quiet ∷ later.events;
      nothing_local = later.nothing_local;
      nothing_hop = later.nothing_hop;
      run = goes_on turn later.run;
      moves = begins move later.moves;
    }

    pub and_then :
        (t u v : System') (a b c : Conduit) → Quietly t u a b → Quietly u v b c → Quietly t v a c
    and_then t u v a b c p q = record {
      events = p.events ++ q.events;
      nothing_local =
          all_told-append told_local p.events q.events ∙ rw (p.nothing_local, q.nothing_local) refl;
      nothing_hop =
          all_told-append told_hop p.events q.events ∙ rw (p.nothing_hop, q.nothing_hop) refl;
      run =
          Run-append client_env server_env cs ss client server laws.overhead bind_port m_fd
            tunnel_fd connfd hop template p.run q.run;
      moves = ConveysAll-append p.moves q.moves;
    }

    -- What has arrived at the server is dealt with.
    drain_up :
        (payloads : List Bytes) (t : System') (a : Conduit)
        → a.up ≡ payloads
        → t.up ≡ []
        → HoldsOf t a
        → (u : System') × (b : Conduit) × Quietly t u a b
          × HoldsOf u b
          × (b.up ≡ [])
          × (b.down ≡ a.down)
    drain_up [] t a e none_left h = (t, a, stays t a, h, e, refl)
    drain_up (x ∷ more) t a e none_left h =
        let wire : Wire (UpPack client server laws) (ss.incoming t.server.world connfd) (x ∷ more) =
          rw (none_left, append-nil (ss.incoming t.server.world connfd), e) at h.up_wire in
        let (packet, rest, came, _, _, fits, _) = wire in
        let whole : IsWhole (ss.incoming t.server.world connfd) =
          rw came (IsWhole-frame packet rest fits) in
        let (bytes, later, waits, _, h') =
          server_turn-Agrees client_env server_env cs ss client server laws bind_port m_fd tunnel_fd
            connfd hop template isq no_dns port apart apart' dial t a whole h in
        let left : later ≡ more = cc in
        let t' =
          server_turn client_env server_env cs ss client server laws.overhead bind_port m_fd
            tunnel_fd connfd hop template t in
        let a' : Conduit = record a { up = later; at_hop = a.at_hop ++ bytes } in
        let (u, b, q, g, done, other) = drain_up more t' a' left none_left h' in
        (
          u,
          b,
          first_turn t t' u a a' b (server_hears whole) (gives_up bytes later waits) q,
          g,
          done,
          other,
        )

    -- What has arrived at the client is dealt with.
    drain_down :
        (payloads : List Bytes) (t : System') (a : Conduit)
        → a.down ≡ payloads
        → t.down ≡ []
        → HoldsOf t a
        → (u : System') × (b : Conduit) × Quietly t u a b
          × HoldsOf u b
          × (b.down ≡ [])
          × (b.up ≡ a.up)
    drain_down [] t a e none_left h = (t, a, stays t a, h, e, refl)
    drain_down (x ∷ more) t a e none_left h =
        let wire : Wire (DownPack client server laws) (cs.incoming t.client.world tunnel_fd)
            (x ∷ more) =
          rw (none_left, append-nil (cs.incoming t.client.world tunnel_fd), e) at h.down_wire in
        let (packet, rest, came, _, _, fits, _) = wire in
        let whole : IsWhole (cs.incoming t.client.world tunnel_fd) =
          rw came (IsWhole-frame packet rest fits) in
        let (bytes, later, waits, h') =
          client_turn-Agrees client_env server_env cs ss client server laws bind_port m_fd tunnel_fd
            connfd hop template isq no_dns port apart apart' dial t a whole h in
        let left : later ≡ more = cc in
        let t' =
          client_turn client_env server_env cs ss client server laws.overhead bind_port m_fd
            tunnel_fd connfd hop template t in
        let a' : Conduit = record a { down = later; at_local = a.at_local ++ bytes } in
        let (u, b, q, g, done, other) = drain_down more t' a' left none_left h' in
        (
          u,
          b,
          first_turn t t' u a a' b (client_hears whole) (gives_down bytes later waits) q,
          g,
          done,
          other,
        )

    module _ (cn : Network client_env.io cs) (sn : Network server_env.io ss) where
      pub settle_up :
          (t : System') (a : Conduit)
          → HoldsOf t a
          → (u : System') × (b : Conduit) × Quietly t u a b
            × HoldsOf u b
            × (b.up ≡ [])
            × (b.down ≡ a.down)
      settle_up t a h =
          let w = sn.deliver connfd t.up t.server.world in
          let m = sn.delivers connfd hop t.up t.server.world in
          let t' : System' = record t { server = record t.server { world = w }; up = [] } in
          let h' =
            reaches_server-Agrees client_env server_env cs ss client server laws bind_port m_fd
              tunnel_fd connfd hop template t.up [] w t a (sym (append-nil t.up)) m h in
          let (u, b, q, g, done, other) = drain_up a.up t' a refl refl h' in
          (
            u,
            b,
            first_turn t t' u a a b (reaches_server t.up [] w (sym (append-nil t.up)) m) idles q,
            g,
            done,
            other,
          )

      pub settle_down :
          (t : System') (a : Conduit)
          → HoldsOf t a
          → (u : System') × (b : Conduit) × Quietly t u a b
            × HoldsOf u b
            × (b.down ≡ [])
            × (b.up ≡ a.up)
      settle_down t a h =
          let w = cn.deliver tunnel_fd t.down t.client.world in
          let m = cn.delivers tunnel_fd m_fd t.down t.client.world in
          let t' : System' = record t { client = record t.client { world = w }; down = [] } in
          let h' =
            reaches_client-Agrees client_env server_env cs ss client server laws bind_port m_fd
              tunnel_fd connfd hop template t.down [] w t a (sym (append-nil t.down)) m h in
          let (u, b, q, g, done, other) = drain_down a.down t' a refl refl h' in
          (
            u,
            b,
            first_turn t t' u a a b (reaches_client t.down [] w (sym (append-nil t.down)) m) idles
                q,
            g,
            done,
            other,
          )
