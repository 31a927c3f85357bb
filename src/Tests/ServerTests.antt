-- ===== src/Tests/ServerTests.antt =====
-- The server of src/native/src/tunnel.cc and the module src/modules/simple_proxy/simple_proxy.c on
-- concrete inputs.
use snakesocks.Base.{
  ◌+◌, ◌<◌, ◌⊎◌, ◌≡◌, refl, true, none, some, [], ◌∷◌, ◌++◌, replicate, arith, length,
}
use snakesocks.Io.{Bytes, ok, overrun, closed}
use snakesocks.Io.Pipes.{Pipes, pipe_io, pipe_streams, piped}
use snakesocks.Module.{ClientQuery, IsQuery, ServerFunctions, as_read, received}
use snakesocks.NetLib.{
  codes, all_zero, dns_head, assemble_dns_query, max_packet, is_dns_query,
  get_domain_from_dns_query,
}
use snakesocks.NetLib.Frames.{after_recv}
use snakesocks.Environment.{
  v4, resolve_domain_once, first_accepted, resolve_domain_filtered, address_bytes,
}
use snakesocks.Environment.OnPipes.{pipe_env, pipe_closing}
use snakesocks.Addr.{accumulate}
use snakesocks.Inbound.{
  Session, do_auth, on_client_data, on_next_hop_data, serve, deal_connection, new_session,
}
use snakesocks.Inbound.Dispatch.{serve-next_hop, deal_connection-closes, AllClosed}
use snakesocks.Inbound.Forward.{on_client_data-first}
use snakesocks.SimpleProxy.{
  Memory, simple_hash, bytes_16, bytes_32, at_16, at_32, xor_all, data_struct, read_struct, client,
  decode, server,
}
use snakesocks.SimpleProxy.Ranges.{decode-IsQuery}
use snakesocks.SimpleProxy.Codec.{decode-encode}
use snakesocks.Tests.Fixtures.{
  web-no_dns, from_hop, web, mem, mem-IsMemory, web-IsQuery, conn, web_packet, session,
  length-web_packet, asking, answer, packet_for, stream,
}

decode-encode_example :
    (packet : Bytes) × ((client mem).client_encode conn web ≡ (ok (received packet), conn))
    × ((server mem).server_decode conn (received packet) ≡ (ok (as_read web), conn))
    × (length packet ≡ 2 + 27)
decode-encode_example = decode-encode mem conn conn web refl mem-IsMemory web-IsQuery (omega arith)

-- 25 bytes, which say that 200 bytes of payload come.
abbrev short_struct : Bytes
short_struct = replicate 20 0 ++ (200 ∷ 0 ∷ 0 ∷ 0 ∷ 7 ∷ [])

decode-IsQuery_example :
    ((q : ClientQuery) × (decode mem conn (received short_struct) ≡ (ok q, conn)) × IsQuery q)
    ⊎ ((decode mem conn (received short_struct) ≡ (overrun, conn))
        × (24 < length short_struct)
        × (length short_struct < 24 + at_32 (xor_all (simple_hash (codes "key")) short_struct) 20))
decode-IsQuery_example = decode-IsQuery mem web-IsQuery conn short_struct (omega arith)

server_decode-web : (server mem).server_decode conn (received web_packet) ≡ (ok web, conn)
unfolding simple_hash accumulate xor_all data_struct read_struct bytes_16 bytes_32 at_16 at_32
    snakesocks.SimpleProxy.decode
server_decode-web = refl

on_client_data-first_example :
    (w : Pipes) × (on_client_data pipe_env (server mem) 1080 0 (session none (stream web_packet))
      ≡ (ok tt, record { world = w; conn = conn; next_hop = some 7 }))
    × (w.outbox 7 ≡ 104 ∷ 105 ∷ [])
on_client_data-first_example =
    on_client_data-first pipe_env pipe_streams (server mem) 1080 0 7 web_packet (9 ∷ [])
      (session none (stream web_packet)) web conn
      (after_recv pipe_io pipe_streams 0 web_packet (piped (stream web_packet))) refl refl
      (omega (arith, length-web_packet)) server_decode-web web-no_dns refl refl

server_decode-asking :
    (server mem).server_decode conn (received (packet_for asking)) ≡ (ok asking, conn)
unfolding snakesocks.SimpleProxy.decode data_struct
server_decode-asking = refl

domain-asking :
    (is_dns_query asking ≡ true) × (get_domain_from_dns_query asking ≡ ok (codes "a.io"))
unfolding is_dns_query get_domain_from_dns_query snakesocks.NetLib.c_string
domain-asking = (refl, refl)

found :
    (p : Pipes)
    → resolve_domain_once pipe_env (codes "a.io") p ≡ (ok (v4 (93 ∷ 184 ∷ 216 ∷ 34 ∷ [])), p)
unfolding resolve_domain_once
found p = refl

encoded_answer :
    (server mem).server_encode conn (record {
      destination_ip = address_bytes (v4 (93 ∷ 184 ∷ 216 ∷ 34 ∷ []));
      destination_port = 443;
      payload = received [];
    })
    ≡ (ok (received (packet_for answer)), conn)
unfolding snakesocks.SimpleProxy.encode address_bytes snakesocks.Module.returned
encoded_answer = refl

server_encode-from_hop :
    (server mem).server_encode conn from_hop ≡ (ok (received (packet_for from_hop)), conn)
unfolding snakesocks.SimpleProxy.encode snakesocks.Module.returned
server_encode-from_hop = refl

length-from_hop : length (packet_for from_hop) ≡ 29
unfolding xor_all data_struct
length-from_hop = refl

serve-next_hop_example :
    (serve pipe_env (server mem) 1080 0 2 (session (some 7) (stream web_packet))).1.next_hop
    ≡ some 7
serve-next_hop_example =
    serve-next_hop pipe_env (server mem) 1080 0 2 7 (session (some 7) (stream web_packet)) refl

-- A module that refuses every client.
abbrev strict : ServerFunctions (Unit {0})
strict = record (server mem) {
  server_make_auth_reply = λ conn query. (ok (received (0 ∷ []), true), conn);
}

-- The client sends one byte to authenticate.
abbrev hello : Pipes
hello = piped (0 ∷ 0 ∷ 0 ∷ 1 ∷ 7 ∷ [])

abbrev greeted : ServerFunctions (Unit {0}) → Session Pipes (Unit {0})
greeted functions =
    (do_auth pipe_env functions 1080 0
      (new_session pipe_env functions 1080 0 (codes "key") hello)).1

-- The client sends a packet to a next hop after that, and a broken one.
abbrev visit : Pipes
visit = piped (0 ∷ 0 ∷ 0 ∷ 1 ∷ 7 ∷ (stream web_packet))

abbrev visited : Session Pipes (Unit {0})
visited = (deal_connection pipe_env (server mem) 1080 0 5 (codes "key") visit).1

deal_connection-visit :
    deal_connection pipe_env (server mem) 1080 0 5 (codes "key") visit ≡ (ok closed, visited)
unfolding deal_connection snakesocks.NetLib.recv_length_and_packet snakesocks.NetLib.htonl xor_all
    data_struct snakesocks.NetLib.ntohl snakesocks.NetLib.send_length_and_packet
    snakesocks.Inbound.round snakesocks.Environment.is_set snakesocks.SimpleProxy.decode
    is_dns_query
deal_connection-visit = refl

deal_connection-closes_example : AllClosed pipe_env pipe_closing (server mem) 1080 0 visited
deal_connection-closes_example =
    deal_connection-closes pipe_env pipe_closing (server mem) 1080 0 5 (codes "key") visit visited
      deal_connection-visit
