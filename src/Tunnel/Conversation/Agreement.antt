-- ===== src/Tunnel/Conversation/Agreement.antt =====
-- When the two ends of src/native/src/socks5.cc and tunnel.cc, with the bytes between them, stand for a machine of
-- two queues.
use snakesocks.Base.{ℕ, ◌≡◌, true, false, none, ◌⊎◌, some, ◌++◌}
use snakesocks.Io.{Bytes, running, ok, Streams}
use snakesocks.Module.{ClientQuery, ClientFunctions, ServerFunctions}
use snakesocks.NetLib.{is_dns_query}
use snakesocks.Environment.{Environment}
use snakesocks.Tunnel.Pipeline.{PipelineLaws, Reads}
use snakesocks.Tunnel.Conversation.{Both}
use snakesocks.Tunnel.Conversation.Conduit.{Conduit}
use snakesocks.Tunnel.Conversation.Wire.{Wire}

module _ {I : Type 0} (client : ClientFunctions I) (server : ServerFunctions I)
    (laws : PipelineLaws client server) where
  -- A packet for data, whose address is not the one that marks a query for a domain.
  abbrev pub UpPack : Bytes → Bytes → Type 0
  UpPack packet payload =
      (q : ClientQuery) × (q.payload.str ≡ payload)
      × (is_dns_query q ≡ false)
      × Reads client.client_encode server.server_decode laws.Client laws.Server laws.overhead packet
          q

  abbrev pub DownPack : Bytes → Bytes → Type 0
  DownPack packet payload =
      (q : ClientQuery) × (q.payload.str ≡ payload)
      × Reads server.server_encode client.client_decode laws.Server laws.Client laws.overhead packet
          q

module _ {I : Type 0} (client_env server_env : Environment) (cs : Streams client_env.io)
    (ss : Streams server_env.io) (client : ClientFunctions I) (server : ServerFunctions I)
    (laws : PipelineLaws client server) (m_fd tunnel_fd connfd hop : ℕ) where
  -- The two ends have authenticated, the server has its next hop or none yet, their sockets are open, no
  -- turn has failed, and the bytes between them are packets for what the machine has on its way.
  pub record Agrees (t : Both client_env.io.World server_env.io.World I) (a : Conduit)
      : Type 0 where
    pub client_holds : laws.Client t.client.conn
    pub server_holds : laws.Server t.server.conn
    pub has_hop : (t.server.next_hop ≡ some hop) ⊎ (t.server.next_hop ≡ none)
    pub up_wire : Wire (UpPack client server laws) (ss.incoming t.server.world connfd ++ t.up) a.up
    pub down_wire :
        Wire (DownPack client server laws) (cs.incoming t.client.world tunnel_fd ++ t.down) a.down
    pub hop_got : ss.outgoing t.server.world hop ≡ a.at_hop
    pub local_got : cs.outgoing t.client.world m_fd ≡ a.at_local
    pub tunnel_open : cs.writable t.client.world tunnel_fd ≡ true
    pub local_open : cs.writable t.client.world m_fd ≡ true
    pub connfd_open : ss.writable t.server.world connfd ≡ true
    pub hop_open : t.server.next_hop ≡ some hop → ss.writable t.server.world hop ≡ true
    pub well : t.outcome ≡ ok running
