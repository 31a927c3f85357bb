-- ===== src/Startup.antt =====
-- The two programs from the command line to their loops of accept: wrapped_main, skcli_main and sksrv_main of
-- src/native/src/client.cc and server.cc, with the constructors that they call and what the exceptions
-- that leave them undo; as compiled for POSIX, with the thread pool. rlib's `quick_listen` is a parameter.
pub mod Failures
use snakesocks.Base.{ℕ, Bool, Option, none, some, [], replicate, if◌then◌else◌}
use snakesocks.Io.{Bytes, Result, ok, thrown, overrun, M, follow, ◌>>=◌, ◌>>◌, return}
use snakesocks.Module.{received}
use snakesocks.Module.Loading.{Loader}
use snakesocks.Module.Handle.{Interface, construct, destroy, move_from}
use snakesocks.Environment.{Environment}
use snakesocks.Environment.Endpoints.{new_listener}
use snakesocks.Config.{ℤ, Boost, ClientConfig, ServerConfig}
use snakesocks.Program.{Options, client_main, server_main}
use snakesocks.Outbound.{OutboundTunnel, init_c_string, moved}
use snakesocks.Listener.{accept_rounds, tunnel_rounds}
use snakesocks.ThreadPool.Pool.{Pool, new_pool}

-- What a program changes: files and the terminal, the loaded objects, and the sockets.
pub record Machine (B L W : Type 0) : Type 0 where
  pub files : B
  pub loaded : L
  pub world : W

module _ {B L W : Type 0} where
  abbrev pub on_files : {A : Type 0} → M B A → M (Machine B L W) A
  on_files m s = let (r, b) = m s.files in (r, record s { files = b })

  abbrev pub on_loader : {A : Type 0} → M L A → M (Machine B L W) A
  on_loader m s = let (r, l) = m s.loaded in (r, record s { loaded = l })

  abbrev pub on_sockets : {A : Type 0} → M W A → M (Machine B L W) A
  on_sockets m s = let (r, w) = m s.world in (r, record s { world = w })

module _ (boost : Boost) (loader : Loader) (env : Environment)
    (dlclose : loader.Handle → loader.World → loader.World) where
  abbrev pub Running : Type 0 → Type 0
  Running A = M (Machine boost.World loader.World env.io.World) A

  -- An exception destroys the object that stands around what throws it.
  abbrev pub unwind :
      {A : Type 0}
      → Interface loader
      → Result A × Machine boost.World loader.World env.io.World
      → Result A × Machine boost.World loader.World env.io.World
  unwind mod_ (ok a, s) = (ok a, s)
  unwind mod_ (thrown e, s) = (thrown e, record s { loaded = destroy loader dlclose mod_ s.loaded })
  unwind mod_ (overrun, s) = (overrun, s)

  -- The module of the client, and its three calls on the sockets: it is moved to the `outbound_tunnel` that is
  -- an argument, whose construction is the first, and from there into that of the `Socks5Server`, whose construction
  -- is the second; the argument is destroyed before `listen`, the third.
  abbrev pub in_server :
      {A B C : Type 0}
      → Interface loader
      → M env.io.World A
      → (A → M env.io.World B)
      → (B → M env.io.World C)
      → Running C
  in_server mod_ first second third s =
      let (argument, left) = move_from loader dlclose mod_ in
      let (member, left_of_argument) = move_from loader dlclose argument in
      unwind left (
        follow (unwind argument (on_sockets first s)) (λ a s1.
          follow (unwind left_of_argument (unwind member (on_sockets (second a) s1))) (λ b s2.
            unwind member (
              on_sockets (third b)
                (record s2 { loaded = destroy loader dlclose left_of_argument s2.loaded })))))

  -- That of the server is moved into the `inbound_tunnel`.
  abbrev pub in_tunnel : {A : Type 0} → Interface loader → M env.io.World A → Running A
  in_tunnel mod_ body s =
      let (member, left) = move_from loader dlclose mod_ in
      unwind left (unwind member (on_sockets body s))

  module _ (accept : ℕ → env.io.World → Option ℕ × env.io.World) (meanwhile during : Pool → Pool)
      (attempts rounds : ℕ) where
    -- The arguments of the constructor, before `initCString`.
    abbrev pub tunnel_to : ClientConfig → OutboundTunnel
    tunnel_to conf = record {
      server_addr = conf.server_ip;
      server_port = conf.server_port;
      passphrase = conf.passphrase;
      nx_retry = conf.retry_resolve;
      conv_server_addr = replicate 16 0;
      conv_passphrase = received [];
    }

    abbrev if_resolved :
        {A : Type 0}
        → Option OutboundTunnel
        → (OutboundTunnel → M env.io.World A)
        → M env.io.World (Option A)
    if_resolved none go_on w = (ok none, w)
    if_resolved (some t) go_on w = follow (go_on t w) (λ a. return (some a))

    -- The tunnel is resolved by its constructor, and again when it is moved into the `Socks5Server`, which
    -- then listens, for so many rounds; `none` if the attempts are used up.
    abbrev pub build : ClientConfig → M env.io.World (Option OutboundTunnel)
    build conf = init_c_string env attempts (tunnel_to conf)

    abbrev pub build_again : Bool → Option OutboundTunnel → M env.io.World (Option OutboundTunnel)
    build_again memory none = return none
    build_again memory (some t) = init_c_string env attempts (moved env memory t)

    abbrev pub listen_socks : ClientConfig → Option OutboundTunnel → M env.io.World (Option Pool)
    listen_socks conf again = if_resolved again (λ t. do
      listenfd ← new_listener env conf.bind_ip conf.bind_port
      accept_rounds env.io.World accept meanwhile during rounds listenfd (new_pool 4))

    -- `wrapped_main` of the client, from `skcli_main` on as well; `none` for the usage text.
    unfoldable pub client_program :
        (Bytes → Option ℤ)
        → M boost.World Bool
        → Bool
        → Options
        → ClientConfig
        → Bool
        → Running (Option Pool)
    client_program stoi daemon help o memory memory' = if help then return none else (do
      started ← on_files (client_main boost stoi daemon o memory)
      mod_ ← on_loader (construct loader dlclose started.0.module_path)
      in_server mod_ (build started.0) (build_again memory') (listen_socks started.0))

  module _ (quick_listen : Bytes → ℕ → M env.io.World ℕ) (quick_accept : ℕ → M env.io.World ℕ)
      (meanwhile during : Pool → Pool) (rounds : ℕ) where
    unfoldable pub listen_tunnel : ServerConfig → M env.io.World Pool
    listen_tunnel conf = do
      listenfd ← quick_listen conf.bind_ip conf.bind_port
      tunnel_rounds env.io.World quick_accept meanwhile during rounds listenfd (new_pool 4)

    -- `wrapped_main` of the server, from `sksrv_main` on as well.
    unfoldable pub server_program :
        (Bytes → Option ℤ) → M boost.World Bool → Bool → Options → Running (Option Pool)
    unfolding listen_tunnel
    server_program stoi daemon help o = if help then return none else (do
      started ← on_files (server_main boost stoi daemon o)
      mod_ ← on_loader (construct loader dlclose started.0.module_path)
      in_tunnel mod_ (listen_tunnel started.0 >>= λ pool. return (some pool)))
