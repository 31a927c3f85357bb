-- ===== src/Config.antt =====
-- The classes client_config and server_config of src/native/src/config.hpp. Boost's property tree and
-- its ini files are a parameter, the record `Boost`.
pub mod RoundTrip
use snakesocks.Base.{
  ℕ, zero, suc, Bool, true, false, Option, none, some, List, [], ◌∷◌, ◌&&◌, ◌==◌, if◌then◌else◌,
}
use snakesocks.Io.{Bytes, bad_path, bad_data, Result, ok, thrown, overrun, M, ◌>>=◌, return}
use snakesocks.NetLib.{codes}
use snakesocks.Socks5.{lift}

-- A C++ `int`.
pub data ℤ : Type 0 where
  pos negsuc : ℕ → ℤ

pub record Boost : Type 1 where
  pub World : Type 0
  pub Tree : Type 0
  pub empty : Tree
  -- The text at a path such as "server.ip".
  pub get : Tree → Bytes → Option Bytes
  pub put : Bytes → Bytes → Tree → Tree
  pub read_ini : Bytes → M World Tree
  pub write_ini : Bytes → Tree → M World (Unit {0})
  -- The translation of a uint16_t and of an int to text and back.
  pub u16_text : ℕ → Bytes
  pub u16_of : Bytes → Option ℕ
  pub int_text : ℤ → Bytes
  pub int_of : Bytes → Option ℤ

pub record ClientConfig : Type 0 where
  pub server_ip : Bytes
  pub server_port : ℕ
  pub passphrase : Bytes
  pub bind_ip : Bytes
  pub bind_port : ℕ
  pub module_path : Bytes
  pub retry_resolve : Bool
  pub debug_level : ℤ
  pub log_file : Bytes

pub record ServerConfig : Type 0 where
  pub bind_ip : Bytes
  pub bind_port : ℕ
  pub passphrase : Bytes
  pub module_path : Bytes
  pub debug_level : ℤ
  pub log_file : Bytes

-- `==` of two strings.
unfoldable pub same_text : Bytes → Bytes → Bool
same_text [] [] = true
same_text [] (y ∷ ys) = false
same_text (x ∷ xs) [] = false
same_text (x ∷ xs) (y ∷ ys) = (x == y) && same_text xs ys

unfoldable pub or_throw : {A : Type 0} → Option A → Result A
or_throw none = thrown bad_data
or_throw (some a) = ok a

abbrev pub bool_text : Bool → Bytes
bool_text b = if b then codes "true" else codes "false"

module _ (boost : Boost) where
  -- `get<string>(path)`
  unfoldable pub get_text : boost.Tree → Bytes → Result Bytes
  get_text tree path = elim (boost.get tree path) [ none ↦ thrown bad_path | some v ↦ ok v ]

  -- `get<uint16_t>(path)`
  unfoldable pub get_u16 : boost.Tree → Bytes → Result ℕ
  get_u16 tree path = elim (boost.get tree path) [
    | none ↦ thrown bad_path
    | some v ↦ or_throw (boost.u16_of v)
  ]

  -- `get(path, default)` for a text and for an int: the default also stands for a text that does not
  -- translate.
  unfoldable pub get_text_or : boost.Tree → Bytes → Bytes → Bytes
  get_text_or tree path default = elim (boost.get tree path) [ none ↦ default | some v ↦ v ]

  unfoldable pub get_int_or : boost.Tree → Bytes → ℤ → ℤ
  get_int_or tree path default = elim (boost.get tree path) [
    | none ↦ default
    | some v ↦ elim (boost.int_of v) [ none ↦ default | some n ↦ n ]
  ]

  unfoldable pub client_of : boost.Tree → M boost.World ClientConfig
  client_of tree = do
    server_ip ← lift (get_text tree (codes "server.ip"))
    server_port ← lift (get_u16 tree (codes "server.port"))
    passphrase ← lift (get_text tree (codes "server.passphrase"))
    bind_ip ← lift (get_text tree (codes "socks5.ip"))
    bind_port ← lift (get_u16 tree (codes "socks5.port"))
    module_path ← lift (get_text tree (codes "core.module"))
    nx_retry ← lift (get_text tree (codes "core.nx_retry"))
    return (record {
      server_ip = server_ip;
      server_port = server_port;
      passphrase = passphrase;
      bind_ip = bind_ip;
      bind_port = bind_port;
      module_path = module_path;
      retry_resolve = same_text nx_retry (codes "true");
      debug_level = get_int_or tree (codes "core.debugLevel") (pos 1);
      log_file = get_text_or tree (codes "core.logFile") [];
    })

  unfoldable pub client_load : Bytes → M boost.World ClientConfig
  client_load conf_path = boost.read_ini conf_path >>= client_of

  unfoldable pub server_of : boost.Tree → M boost.World ServerConfig
  server_of tree = do
    bind_port ← lift (get_u16 tree (codes "core.port"))
    passphrase ← lift (get_text tree (codes "core.passphrase"))
    module_path ← lift (get_text tree (codes "core.module"))
    return (record {
      bind_ip = get_text_or tree (codes "core.ip") (codes "::0");
      bind_port = bind_port;
      passphrase = passphrase;
      module_path = module_path;
      debug_level = get_int_or tree (codes "extra.debugLevel") (pos 1);
      log_file = get_text_or tree (codes "extra.logFile") [];
    })

  unfoldable pub server_load : Bytes → M boost.World ServerConfig
  server_load conf_path = boost.read_ini conf_path >>= server_of

  -- `tree.put` of each pair, in order.
  unfoldable pub put_all : List (Bytes × Bytes) → boost.Tree → boost.Tree
  put_all [] tree = tree
  put_all ((path, value) ∷ rest) tree = put_all rest (boost.put path value tree)

  abbrev pub client_values : ClientConfig → List (Bytes × Bytes)
  client_values conf =
      (codes "server.ip", conf.server_ip)
      ∷ (codes "server.port", boost.u16_text conf.server_port)
      ∷ (codes "server.passphrase", conf.passphrase)
      ∷ (codes "socks5.ip", conf.bind_ip)
      ∷ (codes "socks5.port", boost.u16_text conf.bind_port)
      ∷ (codes "core.module", conf.module_path)
      ∷ (codes "core.nx_retry", bool_text conf.retry_resolve)
      ∷ (codes "core.debugLevel", boost.int_text conf.debug_level)
      ∷ (codes "core.logFile", conf.log_file)
      ∷ []

  abbrev pub server_values : ServerConfig → List (Bytes × Bytes)
  server_values conf =
      (codes "core.ip", conf.bind_ip)
      ∷ (codes "core.port", boost.u16_text conf.bind_port)
      ∷ (codes "core.passphrase", conf.passphrase)
      ∷ (codes "core.module", conf.module_path)
      ∷ (codes "extra.debugLevel", boost.int_text conf.debug_level)
      ∷ (codes "extra.logFile", conf.log_file)
      ∷ []

  unfoldable pub client_save : ClientConfig → Bytes → M boost.World (Unit {0})
  client_save conf conf_path = boost.write_ini conf_path (put_all (client_values conf) boost.empty)

  unfoldable pub server_save : ServerConfig → Bytes → M boost.World (Unit {0})
  server_save conf conf_path = boost.write_ini conf_path (put_all (server_values conf) boost.empty)
