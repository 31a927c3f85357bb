-- ===== src/Environment/Winsock.antt =====
-- The same two functions as in Endpoints, as compiled for Windows: outbound_tunnel::newConnection of
-- src/native/src/tunnel.cc and the start of Socks5Server::listen of src/native/src/socks5.cc.
use snakesocks.Base.{ℕ, ◌≡◌, refl, Bool, true, false, Option, none, some, List, [], ◌∷◌}
use snakesocks.Io.{
  Bytes, Result, ok, thrown, overrun, setsockopt_failed, getaddrinfo_failed, no_endpoint,
  listen_failed, M, follow, ◌>>=◌, ◌>>◌, return, die, guard, startup_failed, follow-same,
}
use snakesocks.Environment.{Environment, SocketOption, reuse_addr, reuse_port}
use snakesocks.Environment.Endpoints.{first_endpoint}

-- `WSAStartup`, whether it returns 0, and `WSACleanup`.
pub record Winsock (env : Environment) : Type 0 where
  pub startup : M env.io.World Bool
  pub cleanup : env.io.World → env.io.World

module _ (env : Environment) where
  -- Only one of the two options is set.
  unfoldable pub first_winsock_endpoint :
      (ℕ → env.Endpoint → M env.io.World Bool) → List env.Endpoint → M env.io.World ℕ
  unfolding die
  first_winsock_endpoint attempt [] = die no_endpoint
  first_winsock_endpoint attempt (rp ∷ rest) = env.socket rp >>= elim [
    | none ↦ first_winsock_endpoint attempt rest
    | some fd ↦
        (env.setsockopt reuse_addr fd >>= λ done. guard done setsockopt_failed)
        >> (attempt fd rp >>= elim [
          | true ↦ return fd
          | false ↦ λ w. first_winsock_endpoint attempt rest (env.close fd w)
        ])
  ]

  module _ (wsa : Winsock env) where
    -- `getaddrinfo`, after which Winsock is left before the exception.
    unfoldable pub winsock_endpoints : Bytes → ℕ → M env.io.World (List env.Endpoint)
    winsock_endpoints host port = env.getaddrinfo host port >>= elim [
      | none ↦ λ w. (thrown getaddrinfo_failed, wsa.cleanup w)
      | some list ↦ return list
    ]

    -- What `rlib_defer` does, on both ways out.
    abbrev pub deferred : Result ℕ × env.io.World → Result ℕ × env.io.World
    deferred (ok fd, w) = (ok fd, wsa.cleanup w)
    deferred (thrown e, w) = (thrown e, wsa.cleanup w)
    deferred (overrun, w) = (overrun, w)

    unfoldable pub new_winsock_connection : Bytes → ℕ → M env.io.World ℕ
    unfolding first_winsock_endpoint winsock_endpoints
    new_winsock_connection server_addr server_port = do
      started ← wsa.startup
      guard started startup_failed
      list ← winsock_endpoints server_addr server_port
      λ w. deferred (first_winsock_endpoint env.connect list w)

    unfoldable pub new_winsock_listener : Bytes → ℕ → M env.io.World ℕ
    unfolding first_winsock_endpoint winsock_endpoints
    new_winsock_listener bind_ip bind_port = do
      started ← wsa.startup
      guard started startup_failed
      list ← winsock_endpoints bind_ip bind_port
      listenfd ← first_winsock_endpoint env.bind list
      done ← env.listen listenfd
      guard done listen_failed
      return listenfd

    one_option :
        ((fd : ℕ) (w : env.io.World) → env.setsockopt reuse_port fd w ≡ (ok true, w))
        → (fd : ℕ) (p : Result Bool × env.io.World) (m n : M env.io.World ℕ)
        → ((w : env.io.World) → m w ≡ n w)
        → follow (follow p (λ done. guard done setsockopt_failed)) (λ _. m)
          ≡ follow
              (follow
                (follow p (λ done. guard done setsockopt_failed))
                (λ _. env.setsockopt reuse_port fd >>= λ done. guard done setsockopt_failed))
              (λ _. n)
    one_option free fd (ok true, w) m n same = rw (free fd w) (same w)
    one_option free fd (ok false, w) m n same = refl
    one_option free fd (thrown e, w) m n same = refl
    one_option free fd (overrun, w) m n same = refl

    -- What is done with the result of `attempt`, and of `socket`, before the `next` endpoint.
    abbrev on_attempt : ℕ → M env.io.World ℕ → Bool → M env.io.World ℕ
    on_attempt fd next success = elim success [
      | true ↦ return fd
      | false ↦ λ w. next (env.close fd w)
    ]

    abbrev set_option : SocketOption → ℕ → M env.io.World (Unit {0})
    set_option option fd = env.setsockopt option fd >>= λ done. guard done setsockopt_failed

    abbrev on_winsock :
        (ℕ → env.Endpoint → M env.io.World Bool)
        → env.Endpoint
        → M env.io.World ℕ
        → Option ℕ
        → M env.io.World ℕ
    on_winsock attempt rp next found = elim found [
      | none ↦ next
      | some fd ↦ set_option reuse_addr fd >> (attempt fd rp >>= on_attempt fd next)
    ]

    abbrev on_posix :
        (ℕ → env.Endpoint → M env.io.World Bool)
        → env.Endpoint
        → M env.io.World ℕ
        → Option ℕ
        → M env.io.World ℕ
    on_posix attempt rp next found = elim found [
      | none ↦ next
      | some fd ↦
          set_option reuse_addr fd
          >> set_option reuse_port fd
          >> (attempt fd rp >>= on_attempt fd next)
    ]

    on_attempt-same :
        (fd : ℕ) (m n : M env.io.World ℕ)
        → ((w : env.io.World) → m w ≡ n w)
        → (success : Bool) (w : env.io.World)
        → on_attempt fd m success w ≡ on_attempt fd n success w
    on_attempt-same fd m n same true w = refl
    on_attempt-same fd m n same false w = same (env.close fd w)

    on_winsock-on_posix :
        ((fd : ℕ) (w : env.io.World) → env.setsockopt reuse_port fd w ≡ (ok true, w))
        → (attempt : ℕ → env.Endpoint → M env.io.World Bool) (rp : env.Endpoint)
          (m n : M env.io.World ℕ)
        → ((w : env.io.World) → m w ≡ n w)
        → (found : Option ℕ) (w : env.io.World)
        → on_winsock attempt rp m found w ≡ on_posix attempt rp n found w
    on_winsock-on_posix free attempt rp m n same none w = same w
    on_winsock-on_posix free attempt rp m n same (some fd) w =
        one_option free fd (env.setsockopt reuse_addr fd w) (attempt fd rp >>= on_attempt fd m)
          (attempt fd rp >>= on_attempt fd n)
          (λ v.
            follow-same (on_attempt fd m) (on_attempt fd n) (on_attempt-same fd m n same)
              (attempt fd rp v))

    -- Where the option that Windows leaves out can be set and setting it changes nothing, both search the
    -- endpoints alike.
    pub first_winsock_endpoint-first_endpoint :
        ((fd : ℕ) (w : env.io.World) → env.setsockopt reuse_port fd w ≡ (ok true, w))
        → (attempt : ℕ → env.Endpoint → M env.io.World Bool) (list : List env.Endpoint)
          (w : env.io.World)
        → first_winsock_endpoint attempt list w ≡ first_endpoint env attempt list w
    unfolding first_winsock_endpoint first_endpoint
    first_winsock_endpoint-first_endpoint free attempt [] w = refl
    first_winsock_endpoint-first_endpoint free attempt (rp ∷ rest) w =
        follow-same (on_winsock attempt rp (first_winsock_endpoint attempt rest))
          (on_posix attempt rp (first_endpoint env attempt rest))
          (on_winsock-on_posix free attempt rp (first_winsock_endpoint attempt rest)
            (first_endpoint env attempt rest)
            (first_winsock_endpoint-first_endpoint free attempt rest))
          (env.socket rp w)
