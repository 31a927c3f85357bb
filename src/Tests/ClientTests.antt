-- ===== src/Tests/ClientTests.antt =====
-- The client of src/native/src/socks5.cc, and both ends of the tunnel together, on concrete inputs, with
-- the module src/modules/simple_proxy/simple_proxy.c.
use snakesocks.Base.{◌≡◌, refl, true, false, none, [], ◌∷◌, ◌++◌, ◌==◌, if◌then◌else◌, arith}
use snakesocks.Io.{Bytes, ok}
use snakesocks.Io.Pipes.{Pipes, update, pipe_streams, piped}
use snakesocks.Module.{ClientQuery, received, encode, decode, make_auth_query}
use snakesocks.NetLib.{codes}
use snakesocks.Environment.OnPipes.{pipe_env}
use snakesocks.Addr.{set_domain, make_dns_query_body}
use snakesocks.Outbound.{Channel}
use snakesocks.Relay.{on_local_data}
use snakesocks.Inbound.{Session, on_client_data, on_next_hop_data}
use snakesocks.SimpleProxy.{
  Memory, simple_hash, bytes_16, bytes_32, at_16, at_32, xor_all, data_struct, read_struct, client,
  server,
}
use snakesocks.NetLib.Frames.{frame}
use snakesocks.Tunnel.{bytes_of}
use snakesocks.Tunnel.Simple.{simple_laws, simple_login}
use snakesocks.Tunnel.Login.{login}
use snakesocks.Tunnel.Transport.{sent_since}
use snakesocks.Tests.Fixtures.{
  at_hop, web, mem, mem-IsMemory, conn, web_packet, session, asking, answer, packet_for,
}

abbrev channel : Pipes → Channel Pipes (Unit {0})
channel p = record { world = p; conn = conn }

-- The local program, on descriptor 3, has sent two bytes.
abbrev local_has : Pipes
local_has = record {
  inbox = λ fd. if fd == 3 then 104 ∷ 105 ∷ [] else [];
  outbox = λ fd. [];
  shut = λ fd. false;
}

abbrev local_read : Pipes
local_read = record local_has { inbox = update local_has.inbox 3 [] }

encode-web :
    encode (client mem) (received (104 ∷ 105 ∷ [])) web conn ≡ (ok (received web_packet), conn)
unfolding snakesocks.Module.returned encode snakesocks.SimpleProxy.encode
encode-web = refl

decode-web : decode (client mem) (received web_packet) conn ≡ (ok web, conn)
unfolding decode snakesocks.SimpleProxy.decode data_struct
decode-web = refl

abbrev sent_query : ClientQuery
sent_query = make_dns_query_body (set_domain (codes "a.io") 443)

encode-query :
    (client mem).client_encode conn sent_query ≡ (ok (received (packet_for asking)), conn)
unfolding snakesocks.Module.returned snakesocks.SimpleProxy.encode data_struct make_dns_query_body
    set_domain
encode-query = refl

decode-answer : decode (client mem) (received (packet_for answer)) conn ≡ (ok answer, conn)
unfolding decode snakesocks.SimpleProxy.decode data_struct
decode-answer = refl

-- The server, whose next hop is 7, has before it what the client sends.
abbrev after_local : Channel Pipes (Unit {0})
after_local = (on_local_data pipe_env (client mem) 3 4 web (channel local_has)).1

abbrev after_hop : Session Pipes (Unit {0})
after_hop = (on_next_hop_data pipe_env (server mem) 1080 0 7 at_hop).1

-- Both ends log in on descriptor 4 of their own machine, with the passphrase "key".
abbrev key_query : Bytes
key_query = bytes_of (make_auth_query (client mem) conn)

abbrev login_has : Session Pipes (Unit {0})
login_has = session none (frame key_query ++ (9 ∷ []))

abbrev after_serve : Session Pipes (Unit {0})
after_serve = (snakesocks.Inbound.do_auth pipe_env (server mem) 1080 0 login_has).1

abbrev login_channel : Channel Pipes (Unit {0})
login_channel =
    channel
      (piped (sent_since pipe_env pipe_streams 0 login_has.world after_serve.world ++ (8 ∷ [])))

abbrev after_login : Channel Pipes (Unit {0})
after_login = (snakesocks.Outbound.do_auth pipe_env (client mem) 0 login_channel).1

login_example :
    ((snakesocks.Outbound.do_auth pipe_env (client mem) 0 login_channel).0 ≡ ok true)
    × ((snakesocks.Inbound.do_auth pipe_env (server mem) 1080 0 login_has).0 ≡ ok true)
    × (after_serve.conn.passphrase.str ≡ after_login.conn.passphrase.str)
    × (after_login.world.outbox 0 ≡ frame key_query)
    × (after_login.world.inbox 0 ≡ 8 ∷ [])
    × (after_serve.world.inbox 0 ≡ 9 ∷ [])
login_example =
    login pipe_env pipe_env pipe_streams pipe_streams (client mem) (server mem)
      (simple_laws mem mem-IsMemory) (simple_login mem mem-IsMemory) 1080 0 0 (9 ∷ []) (8 ∷ [])
      login_channel login_has refl (omega arith) refl refl refl refl
