-- ===== src/Tunnel/Conversation/ClientRounds.antt =====
-- A round of passData's loop in src/native/src/socks5.cc, from one return of `select` to the next, is a run of
-- turns.
use snakesocks.Base.{
  ◌+◌, ◌≤◌, ◌<◌, ◌^◌, ℕ, ◌≡◌, ◌≢◌, refl, true, false, All, some, List, [], ◌∷◌, length, ◌++◌, arith,
}
use snakesocks.Io.{IsByte, Bytes, running, ok, Streams}
use snakesocks.Module.{ClientQuery, ClientFunctions, ServerFunctions, IsQuery}
use snakesocks.NetLib.{is_dns_query, max_packet}
use snakesocks.Environment.{Environment, is_set}
use snakesocks.Tunnel.Pipeline.{PipelineLaws}
use snakesocks.Tunnel.Conversation.Dialling.{Dials}
use snakesocks.Tunnel.Conversation.{
  Both, Meanwhile, quiet, from_local, local_turn, client_turn, local_speaks, client_hears,
  reaches_client, rests, goes_on,
}
use snakesocks.Tunnel.Conversation.Conduit.{Conduit}
use snakesocks.Tunnel.Conversation.Wire.{IsWhole}
use snakesocks.Tunnel.Conversation.Turns.{local_turn-Agrees, client_turn-Agrees}
use snakesocks.Tunnel.Conversation.Refinement.{Holds, RunOf, reaches_client-Agrees}

module _ {I : Type 0} (client_env server_env : Environment) (cs : Streams client_env.io)
    (ss : Streams server_env.io) (client : ClientFunctions I) (server : ServerFunctions I)
    (laws : PipelineLaws client server) (bind_port m_fd tunnel_fd connfd hop : ℕ)
    (template : ClientQuery) (isq : IsQuery template) (no_dns : is_dns_query template ≡ false)
    (port : bind_port < 2 ^ 16) (apart : tunnel_fd ≢ m_fd) (apart' : connfd ≢ hop)
    (dial : Dials server_env ss connfd hop) where
  abbrev System : Type 0
  System = Both client_env.io.World server_env.io.World I

  abbrev Stands : System → Conduit → Type 0
  Stands =
      Holds client_env server_env cs ss client server laws bind_port m_fd tunnel_fd connfd hop
        template

  abbrev spoken : client_env.io.World → System → System
  spoken w t =
      local_turn client_env server_env cs ss client server laws.overhead bind_port m_fd tunnel_fd
        connfd hop template w t

  abbrev heard : System → System
  heard t =
      client_turn client_env server_env cs ss client server laws.overhead bind_port m_fd tunnel_fd
        connfd hop template t

  module _ (t : System) (a : Conduit) (h : Stands t a) (ready : List ℕ) where
    module _ (u : client_env.io.World)
        (sel : client_env.select (m_fd ∷ tunnel_fd ∷ []) t.client.world ≡ (ok (some ready), u))
        (m : Meanwhile client_env.io cs tunnel_fd m_fd [] t.client.world u) where
      abbrev client_selected : System
      client_selected = record t { client = record t.client { world = u } }

      client_selected-Stands : Stands client_selected a
      client_selected-Stands =
          reaches_client-Agrees client_env server_env cs ss client server laws bind_port m_fd
            tunnel_fd connfd hop template [] t.down u t a refl m h

      -- The client's round when only the tunnel is ready.
      pub client_round-heard :
          is_set ready m_fd ≡ false
          → is_set ready tunnel_fd ≡ true
          → IsWhole (cs.incoming u tunnel_fd)
          → RunOf client_env server_env cs ss client server laws bind_port m_fd tunnel_fd connfd hop
              template t
              (quiet ∷ quiet ∷ [])
              (heard client_selected)
            × (snakesocks.Relay.round client_env client m_fd tunnel_fd template t.client
                ≡ (ok running, (heard client_selected).client))
      unfolding snakesocks.Relay.round
      client_round-heard set_m set_t whole =
          let (_, _, _, h') =
            client_turn-Agrees client_env server_env cs ss client server laws bind_port m_fd
              tunnel_fd connfd hop template isq no_dns port apart apart' dial client_selected a
              whole client_selected-Stands in
          let well = h'.well in
          (
            goes_on (reaches_client [] t.down u refl m)
                (goes_on (client_hears whole) (rests (heard client_selected))),
            ground (arith, sel, set_m, set_t, well),
          )

      module _ (bytes : Bytes) (w : client_env.io.World)
          (got : client_env.readall m_fd u ≡ (ok (some bytes), w))
          (m' : Meanwhile client_env.io cs tunnel_fd m_fd [] u w) (some_bytes : 0 < length bytes)
          (fits : length bytes + laws.overhead ≤ max_packet) (bs : All IsByte bytes) where
        spoken-Stands : Stands (spoken w client_selected) (record a { up = a.up ++ (bytes ∷ []) })
        spoken-Stands =
            local_turn-Agrees client_env server_env cs ss client server laws bind_port m_fd
              tunnel_fd connfd hop template isq no_dns port apart apart' dial bytes w
              client_selected a got m' some_bytes fits bs client_selected-Stands

        -- When only the local program is ready.
        pub client_round-spoken :
            is_set ready m_fd ≡ true
            → is_set ready tunnel_fd ≡ false
            → RunOf client_env server_env cs ss client server laws bind_port m_fd tunnel_fd connfd
                hop template t
                (quiet ∷ from_local bytes ∷ [])
                (spoken w client_selected)
              × (snakesocks.Relay.round client_env client m_fd tunnel_fd template t.client
                  ≡ (ok running, (spoken w client_selected).client))
        unfolding snakesocks.Relay.round
        client_round-spoken set_m set_t =
            let well = spoken-Stands.well in
            (
              goes_on (reaches_client [] t.down u refl m) (
                  goes_on (local_speaks bytes w got m' some_bytes fits bs)
                    (rests (spoken w client_selected))),
              ground (arith, sel, set_m, set_t, well),
            )

        -- When both are: the local program comes first.
        pub client_round-both :
            is_set ready m_fd ≡ true
            → is_set ready tunnel_fd ≡ true
            → IsWhole (cs.incoming (spoken w client_selected).client.world tunnel_fd)
            → RunOf client_env server_env cs ss client server laws bind_port m_fd tunnel_fd connfd
                hop template t
                (quiet ∷ from_local bytes ∷ quiet ∷ [])
                (heard (spoken w client_selected))
              × (snakesocks.Relay.round client_env client m_fd tunnel_fd template t.client
                  ≡ (ok running, (heard (spoken w client_selected)).client))
        unfolding snakesocks.Relay.round
        client_round-both set_m set_t whole =
            let (_, _, _, h') =
              client_turn-Agrees client_env server_env cs ss client server laws bind_port m_fd
                tunnel_fd connfd hop template isq no_dns port apart apart' dial
                (spoken w client_selected) (record a { up = a.up ++ (bytes ∷ []) }) whole
                spoken-Stands in
            let first = spoken-Stands.well in
            let second = h'.well in
            (
              goes_on (reaches_client [] t.down u refl m) (
                  goes_on (local_speaks bytes w got m' some_bytes fits bs)
                    (goes_on (client_hears whole) (rests (heard (spoken w client_selected))))),
              ground (arith, sel, set_m, set_t, first, second),
            )
