-- ===== src/Program/Precedence.antt =====
-- Which configuration the programs of src/native/src/client.cc and server.cc run with.
use snakesocks.Base.{ℕ, ◌≡◌, refl, Bool, true, false, Option, some, [], arith}
use snakesocks.Io.{Bytes, ok, M}
use snakesocks.NetLib.{codes}
use snakesocks.Config.{ℤ, Boost, ClientConfig, ServerConfig, same_text, client_load, server_load}
use snakesocks.Program.{
  Options, LogLevel, log_level, client_main, to_u16, is_empty, prefer, number, prefer_int,
  prefer_port, required_int, required_port, client_alone, client_with_file, server_alone,
  server_with_file,
}

-- An option that is given, and one that is given as a number.
abbrev pub IsGiven : Bytes → Type 0
IsGiven text = is_empty text ≡ false

module _ (boost : Boost) (stoi : Bytes → Option ℤ) (daemon : M boost.World Bool) where
  prefer_port-given :
      (text : Bytes) (n : ℤ) (kept what : ℕ)
      → IsGiven text
      → stoi text ≡ some n
      → (prefer_port boost stoi daemon text kept ≡ ok (to_u16 n))
        × (required_port boost stoi daemon text what ≡ ok (to_u16 n))
  unfolding prefer_port required_port number
  prefer_port-given text n kept what g e = ground (arith, g, e)

  prefer_int-given :
      (text : Bytes) (n kept : ℤ) (what : ℕ)
      → IsGiven text
      → stoi text ≡ some n
      → (prefer_int boost stoi daemon text kept ≡ ok n)
        × (required_int boost stoi daemon text what ≡ ok n)
  unfolding prefer_int required_int number
  prefer_int-given text n kept what g e = ground (arith, g, e)

  -- When every option is given, and the numbers are numbers, a configuration file that loads changes
  -- nothing but `retry_resolve`: the client runs with the same configuration as without a file, in
  -- which `retry_resolve` is whatever its memory held.
  pub client_with_file-alone :
      (o : Options) (memory loaded : ClientConfig) (server_port bind_port debug_level : ℤ)
      (w w' : boost.World)
      → IsGiven o.log
      → IsGiven o.server
      → IsGiven o.server_port
      → IsGiven o.passphrase
      → IsGiven o.listen
      → IsGiven o.listen_port
      → IsGiven o.debug
      → IsGiven o.module_path
      → stoi o.server_port ≡ some server_port
      → stoi o.listen_port ≡ some bind_port
      → stoi o.debug ≡ some debug_level
      → client_load boost (prefer o.conf (codes "/etc/snakesocks/conf/client.conf")) w
        ≡ (ok loaded, w')
      → (conf : ClientConfig) × (client_alone boost stoi daemon o memory w
          ≡ (ok (record conf { retry_resolve = memory.retry_resolve }), w))
        × (client_with_file boost stoi daemon o w
            ≡ (ok (record conf { retry_resolve = loaded.retry_resolve }), w'))
  unfolding client_alone client_with_file
  client_with_file-alone o memory loaded sp bp dl w w' gl gs gsp gp gi gip gd gm esp ebp edl load =
      let (a, a') = prefer_port-given o.server_port sp loaded.server_port 1 gsp esp in
      let (b, b') = prefer_port-given o.listen_port bp loaded.bind_port 4 gip ebp in
      let (c, c') = prefer_int-given o.debug dl loaded.debug_level 5 gd edl in
      (
        record {
          server_ip = o.server;
          server_port = to_u16 sp;
          passphrase = o.passphrase;
          bind_ip = o.listen;
          bind_port = to_u16 bp;
          module_path = o.module_path;
          retry_resolve = true;
          debug_level = dl;
          log_file = o.log;
        },
        rw (gs, a', gp, gi, b', c', gm) refl,
        rw (load, a, b, c, gl, gs, gp, gi, gm) refl,
      )

  -- When every option of the server is given, and the numbers are numbers, a configuration file that
  -- loads changes nothing.
  pub server_with_file-alone :
      (o : Options) (loaded : ServerConfig) (bind_port debug_level : ℤ) (w w' : boost.World)
      → IsGiven o.log
      → IsGiven o.passphrase
      → IsGiven o.listen
      → IsGiven o.listen_port
      → IsGiven o.debug
      → IsGiven o.module_path
      → stoi o.listen_port ≡ some bind_port
      → stoi o.debug ≡ some debug_level
      → server_load boost (prefer o.conf (codes "/etc/snakesocks/conf/server.conf")) w
        ≡ (ok loaded, w')
      → (conf : ServerConfig) × (server_alone boost stoi daemon o w ≡ (ok conf, w))
        × (server_with_file boost stoi daemon o w ≡ (ok conf, w'))
  unfolding server_alone server_with_file
  server_with_file-alone o loaded bp dl w w' gl gp gi gip gd gm ebp edl load =
      let (b, b') = prefer_port-given o.listen_port bp loaded.bind_port 4 gip ebp in
      let (c, c') = prefer_int-given o.debug dl loaded.debug_level 5 gd edl in
      (
        record {
          bind_ip = o.listen;
          bind_port = to_u16 bp;
          passphrase = o.passphrase;
          module_path = o.module_path;
          debug_level = dl;
          log_file = o.log;
        },
        rw (gi, b', gp, c', gm) refl,
        rw (load, b, c, gl, gp, gi, gm) refl,
      )

  -- When no option but the configuration file's name is given, the client runs with the configuration
  -- that the file holds, and at its log level, if that is a known one.
  pub client_main-unset :
      (o : Options) (memory loaded : ClientConfig) (level : LogLevel) (w w' : boost.World)
      → o.daemon ≡ false
      → o.retry ≡ false
      → same_text o.conf (codes "NULL") ≡ false
      → IsGiven o.conf
      → o.log ≡ []
      → o.server ≡ []
      → o.server_port ≡ []
      → o.passphrase ≡ []
      → o.listen ≡ []
      → o.listen_port ≡ []
      → o.debug ≡ []
      → o.module_path ≡ []
      → client_load boost o.conf w ≡ (ok loaded, w')
      → log_level loaded.debug_level ≡ ok level
      → client_main boost stoi daemon o memory w ≡ (ok (loaded, level), w')
  unfolding client_main client_with_file prefer_port prefer_int
  client_main-unset o memory loaded level w w' d r nn gc l s sp p li lp db m load known =
      rw (nn, gc, load, sp, lp, db, l, s, p, li, m, r, d, known) refl
