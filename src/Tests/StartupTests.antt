-- ===== src/Tests/StartupTests.antt =====
-- The start of src/native/src/client.cc and server.cc on concrete command lines.
use snakesocks.Base.{◌≡◌, refl, ℕ, ◌+◌, true, false, none, some, []}
use snakesocks.Io.{ok, thrown, listen_failed, no_endpoint}
use snakesocks.Io.Pipes.{Pipes, piped}
use snakesocks.NetLib.{codes}
use snakesocks.Environment.{Environment}
use snakesocks.Environment.OnPipes.{pipe_env}
use snakesocks.Program.{Options, exit_code}
use snakesocks.Startup.{Machine, client_program, server_program}
use snakesocks.Startup.Failures.{Left, client_program-Left, server_program-Left}
use snakesocks.Tests.ConfigTests.{list_boost, int_of, home}
use snakesocks.Tests.ProgramTests.{Disk, every, daemon}
use snakesocks.Tests.LoadingTests.{open_loader}

-- Sockets bind, but cannot listen.
abbrev deaf_env : Environment
deaf_env = record pipe_env { listen = λ fd p. (ok false, p) }

abbrev alone : Options
alone = record every { conf = codes "NULL" }

-- Closing an object adds its handle, 5.
abbrev close_object : ℕ → ℕ → ℕ
close_object handle w = w + handle

abbrev before : Machine Disk ℕ Pipes
before = record { files = []; loaded = 0; world = piped [] }

abbrev after : Machine Disk ℕ Pipes
after = record { files = []; loaded = 5; world = piped [] }

cannot_listen :
    client_program list_boost open_loader deaf_env close_object
      (λ fd p. (none, p))
      (λ pool. pool)
      (λ pool. pool)
      2
      3
      int_of
      daemon
      false
      alone
      home
      true
      before
    ≡ (thrown listen_failed, after)
unfolding snakesocks.Module.Handle.move_from client_program snakesocks.Program.client_main
    snakesocks.Config.same_text snakesocks.Program.client_alone snakesocks.Program.required_port
    int_of snakesocks.Program.required_int snakesocks.Module.Handle.construct
    snakesocks.Module.Loading.load_so snakesocks.Outbound.init_c_string
    snakesocks.Environment.resolve_domain_once snakesocks.Environment.Endpoints.new_listener
    snakesocks.Module.Handle.destroy
cannot_listen = refl

client_program-Left_example :
    Left list_boost open_loader deaf_env close_object 0 (piped []) after
    × (exit_code (
          client_program list_boost open_loader deaf_env close_object
            (λ fd p. (none, p))
            (λ pool. pool)
            (λ pool. pool)
            2
            3
            int_of
            daemon
            false
            alone
            home
            true
            before)
        ≡ some 2)
client_program-Left_example =
    client_program-Left list_boost open_loader deaf_env close_object int_of daemon (λ pool. pool)
      (λ pool. pool) 3 false alone before after listen_failed (λ fd p. (none, p)) 2 home true
      cannot_listen

cannot_bind :
    server_program list_boost open_loader deaf_env close_object
      (λ host port p. (thrown no_endpoint, p))
      (λ fd p. (ok 3, p))
      (λ pool. pool)
      (λ pool. pool)
      3
      int_of
      daemon
      false
      alone
      before
    ≡ (thrown no_endpoint, after)
unfolding snakesocks.Module.Handle.move_from server_program snakesocks.Program.server_main
    snakesocks.Config.same_text snakesocks.Program.server_alone snakesocks.Program.required_port
    int_of snakesocks.Program.required_int snakesocks.Module.Handle.construct
    snakesocks.Module.Loading.load_so snakesocks.Module.Handle.destroy
cannot_bind = refl

cannot_bind-Left :
    Left list_boost open_loader deaf_env close_object 0 (piped []) after
    × (exit_code (
          server_program list_boost open_loader deaf_env close_object
            (λ host port p. (thrown no_endpoint, p))
            (λ fd p. (ok 3, p))
            (λ pool. pool)
            (λ pool. pool)
            3
            int_of
            daemon
            false
            alone
            before)
        ≡ some 2)
cannot_bind-Left =
    server_program-Left list_boost open_loader deaf_env close_object int_of daemon (λ pool. pool)
      (λ pool. pool) 3 false alone before after no_endpoint (λ host port p. (thrown no_endpoint, p))
      (λ fd p. (ok 3, p)) cannot_bind
