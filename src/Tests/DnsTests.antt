-- ===== src/Tests/DnsTests.antt =====
-- A domain's way through the tunnel of src/native/src/socks5.cc and tunnel.cc on a concrete input.
use snakesocks.Base.{◌≡◌, refl, none, [], ◌∷◌, ◌++◌, arith}
use snakesocks.Io.{ok}
use snakesocks.Io.Pipes.{Pipes, pipe_io, pipe_streams, piped}
use snakesocks.Module.{received}
use snakesocks.NetLib.{codes}
use snakesocks.NetLib.Frames.{after_recv}
use snakesocks.Environment.{v4, resolve_domain_once}
use snakesocks.Environment.OnPipes.{pipe_env}
use snakesocks.Addr.{set_domain, set_ipv4, make_dns_query_body}
use snakesocks.Inbound.{Session, on_client_data}
use snakesocks.Outbound.{Channel}
use snakesocks.Relay.{dns_pkgs}
use snakesocks.SimpleProxy.{client, server, data_struct, encode}
use snakesocks.Tunnel.Simple.{simple_laws}
use snakesocks.Tunnel.Transport.{sent_since}
use snakesocks.Tunnel.Dns.{lookup}
use snakesocks.Tests.Fixtures.{mem, mem-IsMemory, conn, asking, packet_for, stream}

abbrev asked : Session Pipes (Unit {0})
asked = record { world = piped (stream (packet_for asking)); conn = conn; next_hop = none }

abbrev read : Pipes
read = after_recv pipe_io pipe_streams 0 (packet_for asking) asked.world

abbrev served : Session Pipes (Unit {0})
served = (on_client_data pipe_env (server mem) 1080 0 asked).1

abbrev waiting : Channel Pipes (Unit {0})
waiting = record {
  world = piped (sent_since pipe_env pipe_streams 0 read served.world ++ (9 ∷ []));
  conn = conn;
}

abbrev told : Channel Pipes (Unit {0})
told = (dns_pkgs pipe_env (client mem) 3 0 (set_domain (codes "a.io") 443) waiting).1

encode-query :
    (client mem).client_encode conn (make_dns_query_body (set_domain (codes "a.io") 443))
    ≡ (ok (received (packet_for asking)), conn)
unfolding snakesocks.Module.returned encode data_struct make_dns_query_body set_domain
encode-query = refl

found :
    resolve_domain_once pipe_env (codes "a.io") read ≡ (ok (v4 (93 ∷ 184 ∷ 216 ∷ 34 ∷ [])), read)
unfolding resolve_domain_once
found = refl

lookup_example :
    ((on_client_data pipe_env (server mem) 1080 0 asked).0 ≡ ok tt)
    × (served.next_hop ≡ none)
    × ((dns_pkgs pipe_env (client mem) 3 0 (set_domain (codes "a.io") 443) waiting).0
        ≡ ok (set_ipv4 (93 ∷ 184 ∷ 216 ∷ 34 ∷ []) 443))
    × (told.world.inbox 0 ≡ 9 ∷ [])
    × (served.conn.passphrase.str ≡ told.conn.passphrase.str)
lookup_example =
    lookup pipe_env pipe_env pipe_streams pipe_streams (client mem) (server mem)
      (simple_laws mem mem-IsMemory) 1080 3 0 0 (codes "a.io") (packet_for asking) (9 ∷ []) (9 ∷ [])
      93 184 216 34 443 waiting asked conn read (omega arith) (omega arith) (omega arith)
      (omega arith) (omega arith) (omega arith) (omega arith) refl encode-query refl found refl refl
      refl
