-- ===== src/Tunnel/Conversation/ServerRounds.antt =====
-- A round of dealConnectionImpl's loop in src/native/src/tunnel.cc, from one return of `select` to the next, is a run of
-- turns.
use snakesocks.Base.{
  ◌+◌, ◌≤◌, ◌<◌, ◌^◌, ℕ, ◌≡◌, ◌≢◌, refl, true, false, All, none, some, List, [], ◌∷◌, length, ◌++◌,
  arith,
}
use snakesocks.Io.{IsByte, Bytes, running, Result, ok, thrown, overrun, Streams}
use snakesocks.Module.{ClientQuery, ClientFunctions, ServerFunctions, IsQuery}
use snakesocks.NetLib.{is_dns_query, max_packet}
use snakesocks.Environment.{Environment, is_set}
use snakesocks.Inbound.{on_client_data}
use snakesocks.Tunnel.Pipeline.{PipelineLaws}
use snakesocks.Tunnel.Conversation.Dialling.{Dials}
use snakesocks.Tunnel.Conversation.{
  Both, Meanwhile, quiet, from_hop, server_turn, hop_turn, went_on, hop_speaks, server_hears,
  reaches_server, rests, goes_on,
}
use snakesocks.Tunnel.Conversation.Conduit.{Conduit}
use snakesocks.Tunnel.Conversation.Wire.{IsWhole}
use snakesocks.Tunnel.Conversation.Turns.{hop_turn-Agrees, server_turn-Agrees}
use snakesocks.Tunnel.Conversation.Refinement.{Holds, RunOf, reaches_server-Agrees}

went_on_ok : (r : Result (Unit {0})) → went_on r ≡ ok running → r ≡ ok tt
went_on_ok (ok tt) h = refl
went_on_ok (thrown e) h = absurd (cc)
went_on_ok overrun h = absurd (cc)

module _ {I : Type 0} (client_env server_env : Environment) (cs : Streams client_env.io)
    (ss : Streams server_env.io) (client : ClientFunctions I) (server : ServerFunctions I)
    (laws : PipelineLaws client server) (bind_port m_fd tunnel_fd connfd hop : ℕ)
    (template : ClientQuery) (isq : IsQuery template) (no_dns : is_dns_query template ≡ false)
    (port : bind_port < 2 ^ 16) (apart : tunnel_fd ≢ m_fd) (apart' : connfd ≢ hop)
    (dial : Dials server_env ss connfd hop) where
  abbrev System : Type 0
  System = Both client_env.io.World server_env.io.World I

  abbrev Stands : System → Conduit → Type 0
  Stands =
      Holds client_env server_env cs ss client server laws bind_port m_fd tunnel_fd connfd hop
        template

  abbrev served : System → System
  served t =
      server_turn client_env server_env cs ss client server laws.overhead bind_port m_fd tunnel_fd
        connfd hop template t

  abbrev answered : server_env.io.World → System → System
  answered w t =
      hop_turn client_env server_env cs ss client server laws.overhead bind_port m_fd tunnel_fd
        connfd hop template w t

  module _ (t : System) (a : Conduit) (h : Stands t a) (ready : List ℕ) where
    module _ (has : t.server.next_hop ≡ some hop) (u : server_env.io.World)
        (sel : server_env.select (connfd ∷ hop ∷ []) t.server.world ≡ (ok (some ready), u))
        (m : Meanwhile server_env.io ss connfd hop [] t.server.world u) where
      abbrev server_selected : System
      server_selected = record t { server = record t.server { world = u } }

      server_selected-Stands : Stands server_selected a
      server_selected-Stands =
          reaches_server-Agrees client_env server_env cs ss client server laws bind_port m_fd
            tunnel_fd connfd hop template [] t.up u t a refl m h

      -- The server's round when only the tunnel is ready.
      pub server_round-served :
          is_set ready connfd ≡ true
          → is_set ready hop ≡ false
          → IsWhole (ss.incoming u connfd)
          → RunOf client_env server_env cs ss client server laws bind_port m_fd tunnel_fd connfd hop
              template t
              (quiet ∷ quiet ∷ [])
              (served server_selected)
            × (snakesocks.Inbound.round server_env server bind_port connfd t.server
                ≡ (ok running, (served server_selected).server))
      unfolding snakesocks.Inbound.round
      server_round-served set_c set_h whole =
          let (_, _, _, after, h') =
            server_turn-Agrees client_env server_env cs ss client server laws bind_port m_fd
              tunnel_fd connfd hop template isq no_dns port apart apart' dial server_selected a
              whole server_selected-Stands in
          let well =
            went_on_ok (on_client_data server_env server bind_port connfd server_selected.server).0
              h'.well in
          (
            goes_on (reaches_server [] t.up u refl m)
                (goes_on (server_hears whole) (rests (served server_selected))),
            ground (arith, has, sel, set_c, set_h, well, after),
          )

      module _ (bytes : Bytes) (w : server_env.io.World) (some_bytes : 0 < length bytes)
          (fits : length bytes + laws.overhead ≤ max_packet) (bs : All IsByte bytes) where
        -- When only the next hop is ready.
        pub server_round-answered :
            is_set ready connfd ≡ false
            → is_set ready hop ≡ true
            → server_env.quick_recvall hop u ≡ (ok bytes, w)
            → Meanwhile server_env.io ss connfd hop [] u w
            → RunOf client_env server_env cs ss client server laws bind_port m_fd tunnel_fd connfd
                hop template t
                (quiet ∷ from_hop bytes ∷ [])
                (answered w server_selected)
              × (snakesocks.Inbound.round server_env server bind_port connfd t.server
                  ≡ (ok running, (answered w server_selected).server))
        unfolding snakesocks.Inbound.round
        server_round-answered set_c set_h got m' =
            let h' =
              hop_turn-Agrees client_env server_env cs ss client server laws bind_port m_fd
                tunnel_fd connfd hop template isq no_dns port apart apart' dial bytes w
                server_selected a has got m' some_bytes fits bs server_selected-Stands in
            let well = h'.well in
            (
              goes_on (reaches_server [] t.up u refl m) (
                  goes_on (hop_speaks bytes w has got m' some_bytes fits bs)
                    (rests (answered w server_selected))),
              ground (arith, has, sel, set_c, set_h, well),
            )

        -- When both are: the client comes first.
        pub server_round-both :
            is_set ready connfd ≡ true
            → is_set ready hop ≡ true
            → IsWhole (ss.incoming u connfd)
            → server_env.quick_recvall hop (served server_selected).server.world ≡ (ok bytes, w)
            → Meanwhile server_env.io ss connfd hop [] (served server_selected).server.world w
            → RunOf client_env server_env cs ss client server laws bind_port m_fd tunnel_fd connfd
                hop template t
                (quiet ∷ quiet ∷ from_hop bytes ∷ [])
                (answered w (served server_selected))
              × (snakesocks.Inbound.round server_env server bind_port connfd t.server
                  ≡ (ok running, (answered w (served server_selected)).server))
        unfolding snakesocks.Inbound.round
        server_round-both set_c set_h whole got m' =
            let (taken, later, _, between, h1) =
              server_turn-Agrees client_env server_env cs ss client server laws bind_port m_fd
                tunnel_fd connfd hop template isq no_dns port apart apart' dial server_selected a
                whole server_selected-Stands in
            let h2 =
              hop_turn-Agrees client_env server_env cs ss client server laws bind_port m_fd
                tunnel_fd connfd hop template isq no_dns port apart apart' dial bytes w
                (served server_selected) (record a { up = later; at_hop = a.at_hop ++ taken })
                between got m' some_bytes fits bs h1 in
            let first =
              went_on_ok
                (on_client_data server_env server bind_port connfd server_selected.server).0
                h1.well in
            let second = h2.well in
            (
              goes_on (reaches_server [] t.up u refl m) (
                  goes_on (server_hears whole) (
                    goes_on (hop_speaks bytes w between got m' some_bytes fits bs)
                      (rests (answered w (served server_selected))))),
              ground (arith, has, sel, set_c, set_h, first, between, second),
            )

    -- The round in which the client's first data come: there is no next hop yet to ask about.
    module _ (lacks : t.server.next_hop ≡ none) (u : server_env.io.World)
        (sel : server_env.select (connfd ∷ []) t.server.world ≡ (ok (some ready), u))
        (m : Meanwhile server_env.io ss connfd hop [] t.server.world u) where
      pub server_round-first :
          is_set ready connfd ≡ true
          → is_set ready hop ≡ false
          → IsWhole (ss.incoming u connfd)
          → RunOf client_env server_env cs ss client server laws bind_port m_fd tunnel_fd connfd hop
              template t
              (quiet ∷ quiet ∷ [])
              (served (record t { server = record t.server { world = u } }))
            × (snakesocks.Inbound.round server_env server bind_port connfd t.server ≡ (
              ok running,
              (served (record t { server = record t.server { world = u } })).server,
            ))
      unfolding snakesocks.Inbound.round
      server_round-first set_c set_h whole =
          let t' : System = record t { server = record t.server { world = u } } in
          let (_, _, _, after, h') =
            server_turn-Agrees client_env server_env cs ss client server laws bind_port m_fd
              tunnel_fd connfd hop template isq no_dns port apart apart' dial t' a whole
              (reaches_server-Agrees client_env server_env cs ss client server laws bind_port m_fd
                tunnel_fd connfd hop template [] t.up u t a refl m h) in
          let well =
            went_on_ok (on_client_data server_env server bind_port connfd t'.server).0 h'.well in
          (
            goes_on (reaches_server [] t.up u refl m)
                (goes_on (server_hears whole) (rests (served t'))),
            ground (arith, lacks, sel, set_c, set_h, well, after),
          )
