-- ===== src/Tests/ProgramTests.antt =====
-- src/native/src/client.cc and server.cc on concrete command lines, over the files of ConfigTests.
use snakesocks.Base.{◌≡◌, refl, Bool, true, false, List, [], ◌∷◌}
use snakesocks.Io.{Bytes, ok, M}
use snakesocks.NetLib.{codes}
use snakesocks.Config.{
  ℤ, pos, Boost, ClientConfig, ServerConfig, same_text, client_load, client_save, server_load,
  server_save,
}
use snakesocks.Program.{Options, info, log_level, client_alone, client_with_file}
use snakesocks.Program.Precedence.{client_with_file-alone}
use snakesocks.Tests.ConfigTests.{
  Tree, list_boost, int_of, home, site, open_file, find, u16_of, int_text,
}

abbrev pub Disk : Type 0
Disk = List (Bytes × Tree)

abbrev pub daemon : M Disk Bool
daemon w = (ok true, w)

-- Every option; a number is one byte, as the numbers of ConfigTests are.
abbrev pub every : Options
every = record {
  daemon = false;
  retry = false;
  conf = [];
  log = codes "log";
  server = codes "b.io";
  server_port = 80 ∷ [];
  passphrase = codes "word";
  listen = codes "::1";
  listen_port = 81 ∷ [];
  debug = 2 ∷ [];
  module_path = codes "other.so";
}

abbrev only_file : Options
only_file = record {
  daemon = false;
  retry = false;
  conf = codes "c.conf";
  log = [];
  server = [];
  server_port = [];
  passphrase = [];
  listen = [];
  listen_port = [];
  debug = [];
  module_path = [];
}

abbrev client_disk : Bytes → Disk
client_disk path = (client_save list_boost home path []).1

abbrev server_disk : Disk
server_disk = (server_save list_boost site (codes "/etc/snakesocks/conf/server.conf") []).1

loads_default :
    client_load list_boost
      (codes "/etc/snakesocks/conf/client.conf")
      (client_disk (codes "/etc/snakesocks/conf/client.conf"))
    ≡ (ok home, client_disk (codes "/etc/snakesocks/conf/client.conf"))
unfolding client_load open_file client_save same_text snakesocks.Config.client_of
    snakesocks.Config.get_text find snakesocks.Config.put_all snakesocks.Config.get_u16
    snakesocks.Config.or_throw u16_of snakesocks.Config.get_int_or snakesocks.Config.get_text_or
    int_of int_text
loads_default = refl

loads_named :
    client_load list_boost (codes "c.conf") (client_disk (codes "c.conf"))
    ≡ (ok home, client_disk (codes "c.conf"))
unfolding client_load open_file client_save same_text snakesocks.Config.client_of
    snakesocks.Config.get_text find snakesocks.Config.put_all snakesocks.Config.get_u16
    snakesocks.Config.or_throw u16_of snakesocks.Config.get_int_or snakesocks.Config.get_text_or
    int_of int_text
loads_named = refl

loads_server :
    server_load list_boost (codes "/etc/snakesocks/conf/server.conf") server_disk
    ≡ (ok site, server_disk)
unfolding server_load open_file server_save same_text snakesocks.Config.server_of
    snakesocks.Config.get_u16 find snakesocks.Config.put_all snakesocks.Config.or_throw u16_of
    snakesocks.Config.get_text snakesocks.Config.get_text_or snakesocks.Config.get_int_or int_of
    int_text
loads_server = refl

client_with_file-alone_example :
    (conf : ClientConfig) × (client_alone list_boost int_of daemon every home
        (client_disk (codes "/etc/snakesocks/conf/client.conf"))
      ≡ (
        ok (record conf { retry_resolve = true }),
        client_disk (codes "/etc/snakesocks/conf/client.conf"),
      ))
    × (client_with_file list_boost int_of daemon every
          (client_disk (codes "/etc/snakesocks/conf/client.conf"))
        ≡ (
          ok (record conf { retry_resolve = true }),
          client_disk (codes "/etc/snakesocks/conf/client.conf"),
        ))
unfolding int_of
client_with_file-alone_example =
    client_with_file-alone list_boost int_of daemon every home home (pos 80) (pos 81) (pos 2)
      (client_disk (codes "/etc/snakesocks/conf/client.conf"))
      (client_disk (codes "/etc/snakesocks/conf/client.conf")) refl refl refl refl refl refl refl
      refl refl refl refl loads_default

known : log_level home.debug_level ≡ ok info
unfolding log_level
known = refl

not_null : same_text (codes "c.conf") (codes "NULL") ≡ false
unfolding same_text
not_null = refl
