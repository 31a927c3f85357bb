-- ===== src/Environment/Endpoints.antt =====
-- The loops over the results of `getaddrinfo`: outbound_tunnel::newConnection of
-- src/native/src/tunnel.cc, which connects, and the start of Socks5Server::listen of
-- src/native/src/socks5.cc, which binds; both as compiled for POSIX.
use snakesocks.Base.{ℕ, Bool, true, false, none, some, List, [], ◌∷◌}
use snakesocks.Io.{
  Bytes, setsockopt_failed, getaddrinfo_failed, no_endpoint, listen_failed, M, ◌>>=◌, ◌>>◌, return,
  die, guard,
}
use snakesocks.Environment.{Environment, SocketOption, reuse_addr, reuse_port}

module _ (env : Environment) where
  -- `if(setsockopt(...) < 0) sysdie(...)`
  abbrev set_option : SocketOption → ℕ → M env.io.World (Unit {0})
  set_option option fd = do done ← env.setsockopt option fd; guard done setsockopt_failed

  -- The first endpoint on which a socket opens and `attempt` succeeds. A socket on which it fails is
  -- closed.
  unfoldable pub first_endpoint :
      (ℕ → env.Endpoint → M env.io.World Bool) → List env.Endpoint → M env.io.World ℕ
  unfolding die
  first_endpoint attempt [] = die no_endpoint
  first_endpoint attempt (rp ∷ rest) = env.socket rp >>= elim [
    | none ↦ first_endpoint attempt rest
    | some fd ↦
        set_option reuse_addr fd
        >> set_option reuse_port fd
        >> (attempt fd rp >>= elim [
          | true ↦ return fd
          | false ↦ λ w. first_endpoint attempt rest (env.close fd w)
        ])
  ]

  abbrev endpoints : Bytes → ℕ → M env.io.World (List env.Endpoint)
  endpoints host port =
      env.getaddrinfo host port >>= elim [ none ↦ die getaddrinfo_failed | some list ↦ return list ]

  -- `newConnection`
  unfoldable pub new_connection : Bytes → ℕ → M env.io.World ℕ
  unfolding first_endpoint
  new_connection server_addr server_port = do
    list ← endpoints server_addr server_port
    first_endpoint env.connect list

  -- `listen`, up to the loop of `accept`.
  unfoldable pub new_listener : Bytes → ℕ → M env.io.World ℕ
  unfolding first_endpoint
  new_listener bind_ip bind_port = do
    list ← endpoints bind_ip bind_port
    listenfd ← first_endpoint env.bind list
    done ← env.listen listenfd
    guard done listen_failed
    return listenfd
