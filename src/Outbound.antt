-- ===== src/Outbound.antt =====
-- The client's end of the tunnel: the class outbound_tunnel of src/native/src/tunnel.hpp and
-- tunnel.cc, and SnakeConnection of src/native/src/connection.hpp.
pub mod Frames
pub mod Laws
use snakesocks.Base.{
  ℕ, zero, suc, Bool, true, Option, none, some, replicate, ◌==◌, length, leb, if◌then◌else◌,
}
use snakesocks.Io.{
  Bytes, host_not_found, auth_failed, auth_query_too_long, auth_reply_too_long, Result, ok, thrown,
  overrun, M, ◌>>=◌, ◌>>◌, return, guard,
}
use snakesocks.Module.{
  BinarySafeString, ConnectInfo, ClientFunctions, make_auth_query, on_auth_reply, on_close_conn,
}
use snakesocks.NetLib.{htonl, ntohl, max_packet}
use snakesocks.Environment.{Environment, Address, resolve_domain_once, address_bytes}
use snakesocks.Environment.Endpoints.{new_connection}

pub record OutboundTunnel : Type 0 where
  pub server_addr : Bytes
  pub server_port : ℕ
  pub passphrase : Bytes
  pub nx_retry : Bool
  pub conv_server_addr : Bytes
  pub conv_passphrase : BinarySafeString

-- The client's side of a connection: the world, and the `connect_info` that the module is given.
pub record Channel (W I : Type 0) : Type 0 where
  pub world : W
  pub conn : ConnectInfo I

module _ {W I : Type 0} where
  abbrev pub on_world : {A : Type 0} → M W A → M (Channel W I) A
  on_world m s = let (r, w) = m s.world in (r, record s { world = w })

  abbrev pub call : {A : Type 0} → M (ConnectInfo I) A → M (Channel W I) A
  call f s = let (r, c) = f s.conn in (r, record s { conn = c })

-- `break`, or the `catch`, which retries or throws again. Only what Boost throws is caught.
unfoldable pub on_resolved :
    {W : Type 0} → Bool → M W (Option Address) → Result Address × W → Result (Option Address) × W
on_resolved nx_retry retry (ok a, w) = (ok (some a), w)
on_resolved nx_retry retry (thrown host_not_found, w) =
    if nx_retry then retry w else (thrown host_not_found, w)
on_resolved nx_retry retry (thrown e, w) = (thrown e, w)
on_resolved nx_retry retry (overrun, w) = (overrun, w)

module _ (env : Environment) where
  -- A length in network order, and the bytes.
  unfoldable pub send_pack : ℕ → Bytes → M env.io.World (Unit {0})
  send_pack connfd pack = do env.io.sendn connfd (htonl (length pack)); env.io.sendn connfd pack

  -- The loop of `initCString`, for at most so many attempts; `none` if they are used up.
  unfoldable pub resolve_server : ℕ → Bool → Bytes → M env.io.World (Option Address)
  unfolding on_resolved
  resolve_server zero nx_retry domain w = (ok none, w)
  resolve_server (suc attempts) nx_retry domain w =
      on_resolved nx_retry (λ w'. resolve_server attempts nx_retry domain w')
        (resolve_domain_once env domain w)

  -- `initCString`, which both constructors call.
  unfoldable pub init_c_string : ℕ → OutboundTunnel → M env.io.World (Option OutboundTunnel)
  unfolding resolve_server
  init_c_string attempts t = resolve_server attempts t.nx_retry t.server_addr >>= elim [
    | none ↦ return none
    | some a ↦ return (
        some (record t {
          conv_server_addr = address_bytes a;
          conv_passphrase = record { null_terminated = true; str = t.passphrase };
        }))
  ]

  -- The move constructor, before it calls `initCString`: it leaves `nx_retry` out, so that the new
  -- object has whatever its memory held, and `conv_serverAddr` is zeroed.
  unfoldable pub moved : Bool → OutboundTunnel → OutboundTunnel
  moved memory ano = record ano { nx_retry = memory; conv_server_addr = replicate 16 0 }

module _ {I : Type 0} (env : Environment) (client : ClientFunctions I) where
  abbrev pub Client : Type 0 → Type 0
  Client A = M (Channel env.io.World I) A

  -- `doAuth`
  unfoldable pub do_auth : ℕ → Client Bool
  do_auth connfd = do
    authdat ← call (make_auth_query client)
    guard (leb (length authdat.str) max_packet) auth_query_too_long
    on_world (send_pack env connfd authdat.str)
    head ← on_world (env.io.recvn connfd 4)
    guard (leb (ntohl head) max_packet) auth_reply_too_long
    rbuf ← on_world (env.io.recvn connfd (ntohl head))
    call (on_auth_reply client rbuf)

  -- `initConnInfo`
  unfoldable pub init_conn_info : OutboundTunnel → ConnectInfo I
  init_conn_info t = record {
    server_ip = t.conv_server_addr;
    server_port = t.server_port;
    passphrase = t.conv_passphrase;
    connect_fd = 0;
    additional_info = none;
  }

  -- The constructor of SnakeConnection, which returns `connfd`. Where it throws, C++ runs no
  -- destructor.
  unfoldable pub connect : OutboundTunnel → env.io.World → Result ℕ × Channel env.io.World I
  unfolding do_auth init_conn_info
  connect t w =
      (do
        connfd ← on_world (new_connection env t.server_addr t.server_port)
        (λ s. (ok tt, record s { conn = record s.conn { connect_fd = connfd } }))
        authenticated ← do_auth connfd
        guard authenticated auth_failed
        return connfd)
        (record { world = w; conn = init_conn_info t })

  -- The destructor: `onCloseConn`, then `close`.
  unfoldable pub disconnect : ℕ → Channel env.io.World I → Channel env.io.World I
  disconnect connfd s = record s {
    conn = on_close_conn client s.conn;
    world = if connfd == 0 then s.world else env.close connfd s.world;
  }
