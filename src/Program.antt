-- ===== src/Program.antt =====
-- How the two programs get their configuration: wrapped_main of src/native/src/client.cc and
-- server.cc, up to skcli_main and sksrv_main, and the log level that those set; as compiled for POSIX.
-- The command line as rlib's opt_parser has read it, `stoi` and `daemon` are parameters.
pub mod Precedence
use snakesocks.Base.{
  ℕ, zero, suc, ◌+◌, ◌-◌, ◌%◌, ◌^◌, Bool, true, false, Option, none, some, [], ◌∷◌, length, ◌==◌,
  if◌then◌else◌,
}
use snakesocks.Io.{
  Bytes, Error, bad_number, not_set, daemon_failed, unknown_log_level, Result, ok, thrown, overrun,
  M, ◌>>=◌, ◌>>◌, return, guard,
}
use snakesocks.NetLib.{codes}
use snakesocks.Socks5.{lift}
use snakesocks.Config.{
  ℤ, pos, negsuc, Boost, ClientConfig, ServerConfig, same_text, client_load, server_load,
}

-- What the options say; a text that is not given is empty. The server has neither `--retry` nor
-- `--server`.
pub record Options : Type 0 where
  pub daemon : Bool
  pub retry : Bool
  pub conf : Bytes
  pub log : Bytes
  pub server : Bytes
  pub server_port : Bytes
  pub passphrase : Bytes
  pub listen : Bytes
  pub listen_port : Bytes
  pub debug : Bytes
  pub module_path : Bytes

pub data LogLevel : Type 0 where
  fatal error info debug : LogLevel

-- The `switch` of `skcli_main` and of `sksrv_main`.
unfoldable pub log_level : ℤ → Result LogLevel
log_level (pos zero) = ok fatal
log_level (pos (suc zero)) = ok error
log_level (pos (suc (suc zero))) = ok info
log_level (pos (suc (suc (suc zero)))) = ok debug
log_level (pos (suc (suc (suc (suc zero))))) = ok debug
log_level (pos (suc (suc (suc (suc (suc n)))))) = thrown unknown_log_level
log_level (negsuc n) = thrown unknown_log_level

-- `(uint16_t) n`
unfoldable pub to_u16 : ℤ → ℕ
to_u16 (pos n) = n % 2 ^ 16
to_u16 (negsuc n) = 2 ^ 16 - 1 - n % 2 ^ 16

abbrev pub is_empty : Bytes → Bool
is_empty text = length text == 0

-- `if(text.empty()) die("... not set.");`
abbrev pub required : Bytes → ℕ → Result Bytes
required text what = if is_empty text then thrown (not_set what) else ok text

-- `if(!given.empty()) kept = given;`
abbrev pub prefer : Bytes → Bytes → Bytes
prefer given kept = if is_empty given then kept else given

module _ (boost : Boost) (stoi : Bytes → Option ℤ) (daemon : M boost.World Bool) where
  unfoldable pub number : Bytes → Result ℤ
  number text = elim (stoi text) [ none ↦ thrown bad_number | some n ↦ ok n ]

  unfoldable pub prefer_int : Bytes → ℤ → Result ℤ
  unfolding number
  prefer_int given kept = if is_empty given then ok kept else number given

  unfoldable pub prefer_port : Bytes → ℕ → Result ℕ
  unfolding number to_u16
  prefer_port given kept =
      if is_empty given
      then ok kept
      else elim (number given) [ ok n ↦ ok (to_u16 n) | thrown e ↦ thrown e | overrun ↦ overrun ]

  unfoldable pub required_int : Bytes → ℕ → Result ℤ
  unfolding number
  required_int text what = if is_empty text then thrown (not_set what) else number text

  unfoldable pub required_port : Bytes → ℕ → Result ℕ
  unfolding number to_u16
  required_port text what =
      if is_empty text
      then thrown (not_set what)
      else elim (number text) [ ok n ↦ ok (to_u16 n) | thrown e ↦ thrown e | overrun ↦ overrun ]

  -- The client without a configuration file. What `memory` holds stands in the fields that are not
  -- assigned.
  unfoldable pub client_alone : Options → ClientConfig → M boost.World ClientConfig
  client_alone o memory = do
    server_ip ← lift (required o.server 0)
    server_port ← lift (required_port o.server_port 1)
    passphrase ← lift (required o.passphrase 2)
    bind_ip ← lift (required o.listen 3)
    bind_port ← lift (required_port o.listen_port 4)
    debug_level ← lift (required_int o.debug 5)
    module_path ← lift (required o.module_path 6)
    return (record memory {
      log_file = o.log;
      server_ip = server_ip;
      server_port = server_port;
      passphrase = passphrase;
      bind_ip = bind_ip;
      bind_port = bind_port;
      debug_level = debug_level;
      module_path = module_path;
    })

  unfoldable pub client_with_file : Options → M boost.World ClientConfig
  client_with_file o = do
    conf ← client_load boost (prefer o.conf (codes "/etc/snakesocks/conf/client.conf"))
    server_port ← lift (prefer_port o.server_port conf.server_port)
    bind_port ← lift (prefer_port o.listen_port conf.bind_port)
    debug_level ← lift (prefer_int o.debug conf.debug_level)
    return (record conf {
      log_file = prefer o.log conf.log_file;
      server_ip = prefer o.server conf.server_ip;
      server_port = server_port;
      passphrase = prefer o.passphrase conf.passphrase;
      bind_ip = prefer o.listen conf.bind_ip;
      bind_port = bind_port;
      debug_level = debug_level;
      module_path = prefer o.module_path conf.module_path;
    })

  abbrev pub client_base : Options → ClientConfig → M boost.World ClientConfig
  client_base o memory =
      if same_text o.conf (codes "NULL") then client_alone o memory else client_with_file o

  -- `if(asDaemon) ...`
  abbrev pub as_daemon : Bool → M boost.World (Unit {0})
  as_daemon wanted = if wanted then (do done ← daemon; guard done daemon_failed) else return tt

  -- The configuration that `skcli_main` is called with, and the level that it sets.
  unfoldable pub client_main : Options → ClientConfig → M boost.World (ClientConfig × LogLevel)
  unfolding log_level
  client_main o memory = do
    base ← client_base o memory
    let conf = if o.retry then record base { retry_resolve = true } else base
    as_daemon o.daemon
    level ← lift (log_level conf.debug_level)
    return (conf, level)

  unfoldable pub server_alone : Options → M boost.World ServerConfig
  server_alone o = do
    bind_ip ← lift (required o.listen 3)
    bind_port ← lift (required_port o.listen_port 4)
    passphrase ← lift (required o.passphrase 2)
    debug_level ← lift (required_int o.debug 5)
    module_path ← lift (required o.module_path 6)
    return (record {
      bind_ip = bind_ip;
      bind_port = bind_port;
      passphrase = passphrase;
      module_path = module_path;
      debug_level = debug_level;
      log_file = o.log;
    })

  unfoldable pub server_with_file : Options → M boost.World ServerConfig
  server_with_file o = do
    conf ← server_load boost (prefer o.conf (codes "/etc/snakesocks/conf/server.conf"))
    bind_port ← lift (prefer_port o.listen_port conf.bind_port)
    debug_level ← lift (prefer_int o.debug conf.debug_level)
    return (record {
      bind_ip = prefer o.listen conf.bind_ip;
      bind_port = bind_port;
      passphrase = prefer o.passphrase conf.passphrase;
      module_path = prefer o.module_path conf.module_path;
      debug_level = debug_level;
      log_file = prefer o.log conf.log_file;
    })

  abbrev pub server_base : Options → M boost.World ServerConfig
  server_base o = if same_text o.conf (codes "NULL") then server_alone o else server_with_file o

  -- The configuration that `sksrv_main` is called with, and the level that it sets.
  unfoldable pub server_main : Options → M boost.World (ServerConfig × LogLevel)
  unfolding log_level
  server_main o = do
    conf ← server_base o
    as_daemon o.daemon
    level ← lift (log_level conf.debug_level)
    return (conf, level)

-- What `main` returns, which catches every exception; a run over a buffer may end in any way.
unfoldable pub exit_code : {W A : Type 0} → Result A × W → Option ℕ
exit_code (ok a, w) = some 0
exit_code (thrown e, w) = some 2
exit_code (overrun, w) = none
