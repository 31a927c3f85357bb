-- ===== src/Startup/Failures.antt =====
-- What is left behind when one of the programs of src/native/src/client.cc and server.cc fails to start, or ends by
-- an exception.
use snakesocks.Base.{
  List, [], none, ◌≡◌, refl, ap, sym, ◌∙◌, ℕ, Bool, Option, some, Bool-cases, inl, inr,
}
use snakesocks.Io.{Bytes, Error, Result, ok, thrown, overrun, M, follow, ◌>>=◌, return}
use snakesocks.Module.Loading.{Loader, load_so}
use snakesocks.Module.Handle.{Interface, construct, destroy, move_from}
use snakesocks.Environment.{Environment}
use snakesocks.Config.{ℤ, Boost, ClientConfig, ServerConfig}
use snakesocks.Program.{Options, LogLevel, client_main, server_main, exit_code}
use snakesocks.ThreadPool.Pool.{Pool}
use snakesocks.Startup.{
  Machine, on_sockets, Running, unwind, in_server, in_tunnel, build, build_again, client_program,
  server_program, listen_socks, listen_tunnel,
}

module _ (boost : Boost) (loader : Loader) (env : Environment)
    (dlclose : loader.Handle → loader.World → loader.World) where
  abbrev pub State : Type 0
  State = Machine boost.World loader.World env.io.World

  -- What an error leaves, of the objects and the sockets before. No configuration: no object was opened and no
  -- socket touched. No module: no socket was touched. Later: the object that was opened is closed, once.
  pub data Left (l : loader.World) (w : env.io.World) (t : State) : Type 0 where
    unconfigured : t.loaded ≡ l → t.world ≡ w → Left l w t
    no_module :
        (path : Bytes) (e : Error)
        → load_so loader path l ≡ (thrown e, t.loaded)
        → t.world ≡ w
        → Left l w t
    unloaded :
        (path : Bytes) (handle : loader.Handle) (symbols : List loader.Symbol) (u : loader.World)
        → load_so loader path l ≡ (ok (handle, symbols), u)
        → t.loaded ≡ dlclose handle u
        → Left l w t

  -- The object of a part of the program that owns the module `handle` when it begins is closed if it throws.
  abbrev Closes : {A : Type 0} → loader.Handle → loader.World → Result A × State → Type 0
  Closes handle l p = (t : State) (e : Error) → p ≡ (thrown e, t) → t.loaded ≡ dlclose handle l

  module _ (handle : loader.Handle) (symbols : List loader.Symbol) where
    abbrev mod_ : Interface loader
    mod_ = record { functions = symbols; so_handle = some handle }

    abbrev emptied : Interface loader
    emptied = record { functions = []; so_handle = none }

    listened :
        {C : Type 0} (p : Result C × env.io.World) (s : State)
        → Closes handle s.loaded (
            unwind boost loader env dlclose emptied
              (unwind boost loader env dlclose mod_ (p.0, record s { world = p.1 })))
    unfolding destroy
    listened (ok c, w) s t e h = absurd (cc)
    listened (thrown x, w) s t e h = sym (ap (λ q. q.1.loaded) h)
    listened (overrun, w) s t e h = absurd (cc)

    built_again :
        {B C : Type 0} (p : Result B × env.io.World) (third : B → M env.io.World C) (s : State)
        → Closes handle s.loaded (
            unwind boost loader env dlclose emptied (
              follow
                (unwind boost loader env dlclose emptied
                  (unwind boost loader env dlclose mod_ (p.0, record s { world = p.1 })))
                (λ b s2. unwind boost loader env dlclose mod_ (
                  on_sockets
                    (third b)
                    (record s2 { loaded = destroy loader dlclose emptied s2.loaded })))))
    unfolding destroy
    built_again (ok b, w) third s t e h = listened (third b w) (record s { world = w }) t e h
    built_again (thrown x, w) third s t e h = sym (ap (λ q. q.1.loaded) h)
    built_again (overrun, w) third s t e h = absurd (cc)

    in_server-Closes :
        {A B C : Type 0} (p : Result A × env.io.World) (second : A → M env.io.World B)
        (third : B → M env.io.World C) (s : State)
        → Closes handle s.loaded (
            unwind boost loader env dlclose emptied (
              follow (unwind boost loader env dlclose mod_ (p.0, record s { world = p.1 })) (λ a s1.
                follow
                  (unwind boost loader env dlclose emptied
                    (unwind boost loader env dlclose mod_ (on_sockets (second a) s1)))
                  (λ b s2. unwind boost loader env dlclose mod_ (
                    on_sockets
                      (third b)
                      (record s2 { loaded = destroy loader dlclose emptied s2.loaded }))))))
    unfolding destroy
    in_server-Closes (ok a, w) second third s t e h =
        built_again (second a w) third (record s { world = w }) t e h
    in_server-Closes (thrown x, w) second third s t e h = sym (ap (λ q. q.1.loaded) h)
    in_server-Closes (overrun, w) second third s t e h = absurd (cc)

  -- What a program does with the module that it has loaded.
  abbrev loaded_from :
      {A : Type 0}
      → (Interface loader → Running boost loader env dlclose A)
      → State
      → Result (loader.Handle × List loader.Symbol) × loader.World
      → Result A × State
  loaded_from body s p =
      let q : Result (Interface loader) × loader.World =
        follow p (λ opened. return (record { functions = opened.1; so_handle = some opened.0 })) in
      follow (q.0, record s { loaded = q.1 }) body

  loaded-Left :
      {A : Type 0} (path : Bytes) (body : Interface loader → Running boost loader env dlclose A)
      (s t : State) (e : Error) (p : Result (loader.Handle × List loader.Symbol) × loader.World)
      → ((handle : loader.Handle) (symbols : List loader.Symbol) (s' : State)
          → Closes handle s'.loaded (body (mod_ handle symbols) s'))
      → load_so loader path s.loaded ≡ p
      → loaded_from body s p ≡ (thrown e, t)
      → Left s.loaded s.world t
  loaded-Left path body s t e (ok (handle, symbols), u) closes opened h =
      unloaded path handle symbols u opened (closes handle symbols (record s { loaded = u }) t e h)
  loaded-Left path body s t e (thrown x, u) closes opened h =
      no_module path x (opened ∙ ap (λ l. (thrown x, l)) (ap (λ q. q.1.loaded) h))
        (sym (ap (λ q. q.1.world) h))
  loaded-Left path body s t e (overrun, u) closes opened h = absurd (cc)

  configured-Left :
      {A C : Type 0} (path : C → Bytes)
      (body : C → Interface loader → Running boost loader env dlclose A) (s t : State) (e : Error)
      (p : Result C × boost.World)
      → ((c : C) (handle : loader.Handle) (symbols : List loader.Symbol) (s' : State)
          → Closes handle s'.loaded (body c (mod_ handle symbols) s'))
      → follow
          (p.0, record s { files = p.1 })
          (λ c s'. loaded_from (body c) s' (load_so loader (path c) s'.loaded))
        ≡ (thrown e, t)
      → Left s.loaded s.world t
  configured-Left path body s t e (ok c, b) closes h =
      loaded-Left (path c) (body c) (record s { files = b }) t e (load_so loader (path c) s.loaded)
        (closes c) refl h
  configured-Left path body s t e (thrown x, b) closes h =
      unconfigured (sym (ap (λ q. q.1.loaded) h)) (sym (ap (λ q. q.1.world) h))
  configured-Left path body s t e (overrun, b) closes h = absurd (cc)

  module _ (stoi : Bytes → Option ℤ) (daemon : M boost.World Bool) (meanwhile during : Pool → Pool)
      (rounds : ℕ) (help : Bool) (o : Options) (s t : State) (e : Error) where
    -- When the client ends by an exception, whichever it is and whenever it comes, it returns 2, and a module
    -- that it has loaded is closed, once, by one of the three objects that it has been moved through; without
    -- one no socket was touched.
    pub client_program-Left :
        (accept : ℕ → env.io.World → Option ℕ × env.io.World) (attempts : ℕ) (memory : ClientConfig)
        (memory' : Bool)
        → client_program boost loader env dlclose accept meanwhile during attempts rounds stoi
            daemon help o memory memory' s
          ≡ (thrown e, t)
        → Left s.loaded s.world t
          × (exit_code (
                client_program boost loader env dlclose accept meanwhile during attempts rounds stoi
                  daemon help o memory memory' s)
              ≡ some 2)
    unfolding client_program exit_code construct
    client_program-Left accept attempts memory memory' h = (
      elim (Bool-cases help) [
        | inl asked ↦ absurd (let k = rw asked at h in cc)
        | inr not_asked ↦
            configured-Left {C = ClientConfig × LogLevel} (λ c. c.0.module_path)
              (λ c m.
                in_server boost loader env dlclose m
                  (build boost loader env dlclose accept meanwhile during attempts rounds c.0)
                  (build_again boost loader env dlclose accept meanwhile during attempts rounds
                    memory')
                  (listen_socks boost loader env dlclose accept meanwhile during attempts rounds
                    c.0))
              s t e (client_main boost stoi daemon o memory s.files)
              (λ c handle symbols s'.
                unfold move_from in
                in_server-Closes handle symbols
                  (build boost loader env dlclose accept meanwhile during attempts rounds c.0
                    s'.world)
                  (build_again boost loader env dlclose accept meanwhile during attempts rounds
                    memory')
                  (listen_socks boost loader env dlclose accept meanwhile during attempts rounds
                    c.0)
                  s')
              (rw not_asked at h)
      ],
      rw h refl,
    )

    -- And so does the server.
    pub server_program-Left :
        (quick_listen : Bytes → ℕ → M env.io.World ℕ) (quick_accept : ℕ → M env.io.World ℕ)
        → server_program boost loader env dlclose quick_listen quick_accept meanwhile during rounds
            stoi daemon help o s
          ≡ (thrown e, t)
        → Left s.loaded s.world t
          × (exit_code (
                server_program boost loader env dlclose quick_listen quick_accept meanwhile during
                  rounds stoi daemon help o s)
              ≡ some 2)
    unfolding server_program exit_code construct
    server_program-Left quick_listen quick_accept h = (
      elim (Bool-cases help) [
        | inl asked ↦ absurd (let k = rw asked at h in cc)
        | inr not_asked ↦
            configured-Left {C = ServerConfig × LogLevel} (λ c. c.0.module_path)
              (λ c m. in_tunnel boost loader env dlclose m (
                listen_tunnel boost loader env dlclose quick_listen quick_accept meanwhile during
                  rounds c.0
                >>= λ pool. return (some pool)))
              s t e (server_main boost stoi daemon o s.files)
              (λ c handle symbols s'.
                unfold move_from in
                listened handle symbols
                  ((listen_tunnel boost loader env dlclose quick_listen quick_accept meanwhile
                        during rounds c.0
                      >>= λ pool. return (some pool))
                    s'.world)
                  s')
              (rw not_asked at h)
      ],
      rw h refl,
    )
