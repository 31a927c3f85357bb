-- ===== src/Inbound.antt =====
-- The server's end of the tunnel: the class inbound_tunnel of src/native/src/tunnel.hpp and
-- tunnel.cc, for one connection after `accept`. A round of the loop is one return of `select`.
pub mod Dispatch
pub mod Forward
use snakesocks.Base.{
  ℕ, zero, suc, Bool, false, not, Option, none, some, List, [], ◌∷◌, length, replicate, ◌==◌,
  if◌then◌else◌,
}
use snakesocks.Io.{
  Status, running, closed, Bytes, select_failed, auth_failed, Result, ok, thrown, overrun, M,
  follow, ◌>>=◌, ◌>>◌, return, die,
}
use snakesocks.Module.{ClientQuery, ConnectInfo, ServerFunctions, received}
use snakesocks.NetLib.{
  send_length_and_packet, recv_length_and_packet, is_dns_query, get_domain_from_dns_query,
  ip_array_to_str,
}
use snakesocks.Environment.{Environment, resolve_domain_once, address_bytes, is_set}

-- What `dealConnectionImpl` keeps: `myConnInfo` and `nextHopConn`, with `none` for -1.
pub record Session (W I : Type 0) : Type 0 where
  pub world : W
  pub conn : ConnectInfo I
  pub next_hop : Option ℕ

module _ {W I : Type 0} where
  abbrev pub on_world : {A : Type 0} → M W A → M (Session W I) A
  on_world m s = let (r, w) = m s.world in (r, record s { world = w })

  -- A call of the module with `&myConnInfo`.
  abbrev pub call : {A : Type 0} → M (ConnectInfo I) A → M (Session W I) A
  call f s = let (r, c) = f s.conn in (r, record s { conn = c })

module _ {I : Type 0} (env : Environment) (server : ServerFunctions I) (bind_port connfd : ℕ) where
  abbrev pub Server : Type 0 → Type 0
  Server A = M (Session env.io.World I) A

  -- `doAuth`
  unfoldable pub do_auth : Server Bool
  do_auth = do
    msg ← on_world (recv_length_and_packet env.io connfd)
    (reply, failed) ← call (λ c. server.server_make_auth_reply c (received msg))
    on_world (send_length_and_packet env.io connfd reply.str)
    return (not failed)

  unfoldable pub answer_dns : ClientQuery → Server (Unit {0})
  answer_dns query = do
    domain ← λ s. (get_domain_from_dns_query query, s)
    address ← on_world (resolve_domain_once env domain)
    encoded ← call (λ c. server.server_encode c (record {
      destination_ip = address_bytes address;
      destination_port = query.destination_port;
      payload = record { null_terminated = false; str = [] };
    }))
    on_world (send_length_and_packet env.io connfd encoded.str)

  -- The next hop, which is connected to when the first data comes.
  unfoldable pub next_hop_for : ClientQuery → Server ℕ
  next_hop_for query s = elim s.next_hop [
    | some fd ↦ (ok fd, s)
    | none ↦
        follow
          (on_world
            (env.quick_connect (ip_array_to_str query.destination_ip) query.destination_port) s)
          (λ fd s'. (ok fd, record s' { next_hop = some fd }))
  ]

  unfoldable pub on_client_data : Server (Unit {0})
  unfolding answer_dns next_hop_for
  on_client_data = do
    packet ← on_world (recv_length_and_packet env.io connfd)
    query ← call (λ c. server.server_decode c (received packet))
    if is_dns_query query
        then answer_dns query
        else (do fd ← next_hop_for query; on_world (env.io.sendn fd query.payload.str))

  unfoldable pub on_next_hop_data : ℕ → Server Status
  on_next_hop_data fd = do
    freedom_data ← on_world (env.quick_recvall fd)
    if length freedom_data == 0 then return closed else (do
      encoded ← call (λ c. server.server_encode c (record {
        destination_ip = replicate 16 0;
        destination_port = bind_port;
        payload = received freedom_data;
      }))
      on_world (send_length_and_packet env.io connfd encoded.str)
      return running)

  abbrev pub asked : Option ℕ → List ℕ
  asked none = connfd ∷ []
  asked (some fd) = connfd ∷ fd ∷ []

  -- `nextHopConn` is read again: the client's data may have set it.
  unfoldable pub next_hop_turn : List ℕ → Server Status
  unfolding on_next_hop_data
  next_hop_turn ready s = elim s.next_hop [
    | none ↦ (ok running, s)
    | some fd ↦ if is_set ready fd then on_next_hop_data fd s else (ok running, s)
  ]

  unfoldable pub round : Server Status
  unfolding on_client_data next_hop_turn
  round s = follow (on_world (env.select (asked s.next_hop)) s) (elim [
    | none ↦ λ s'. (thrown select_failed, s')
    | some ready ↦
        (if is_set ready connfd then on_client_data else return tt) >> next_hop_turn ready
  ])

  -- The loop, for at most so many rounds; it is still running when they are used up.
  unfoldable pub serve : ℕ → Server Status
  serve zero = return running
  serve (suc rounds) = round >>= elim [ running ↦ serve rounds | closed ↦ return closed ]

  -- The two `rlib_defer`, in the order in which they run.
  unfoldable pub cleanup : Session env.io.World I → Session env.io.World I
  cleanup s = record s {
    world = elim s.next_hop [ none ↦ s.world | some fd ↦ env.close fd s.world ];
    conn = server.server_connection_close s.conn;
  }

  -- They run when the loop returns and when it throws.
  unfoldable pub with_cleanup :
      Result Status × Session env.io.World I → Result Status × Session env.io.World I
  unfolding cleanup
  with_cleanup (ok running, s) = (ok running, s)
  with_cleanup (ok closed, s) = (ok closed, cleanup s)
  with_cleanup (thrown e, s) = (thrown e, cleanup s)
  with_cleanup (overrun, s) = (overrun, s)

  -- The `die`, whose message has the name of the client; `get_peer_name` may itself throw.
  unfoldable pub refuse : Server Status
  unfolding die
  refuse = do peername ← on_world (env.get_peer_name connfd); die auth_failed

  unfoldable pub deal_connection_impl : ℕ → Server Status
  unfolding do_auth serve with_cleanup refuse
  deal_connection_impl rounds = do
    authenticated ← do_auth
    if authenticated then (λ s. with_cleanup (serve rounds s)) else refuse

  -- The `catch`, and the `close` behind it.
  unfoldable pub caught :
      Result Status × Session env.io.World I → Result Status × Session env.io.World I
  caught (ok running, s) = (ok running, s)
  caught (ok closed, s) = (ok closed, record s { world = env.close connfd s.world })
  caught (thrown e, s) = (ok closed, record s { world = env.close connfd s.world })
  caught (overrun, s) = (overrun, s)

  -- `myConnInfo` at the start, with the passphrase of the configuration.
  unfoldable pub new_session : Bytes → env.io.World → Session env.io.World I
  new_session passphrase w = record {
    world = w;
    conn = record {
      server_ip = replicate 16 0;
      server_port = bind_port;
      passphrase = received passphrase;
      connect_fd = connfd;
      additional_info = none;
    };
    next_hop = none;
  }

  unfoldable pub deal_connection : ℕ → Bytes → env.io.World → Result Status × Session env.io.World I
  unfolding deal_connection_impl caught new_session
  deal_connection rounds passphrase w =
      caught (deal_connection_impl rounds (new_session passphrase w))
