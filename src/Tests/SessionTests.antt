-- ===== src/Tests/SessionTests.antt =====
-- Both ends of src/native/src/socks5.cc and tunnel.cc from their authentication on, on concrete inputs, with the
-- module src/modules/simple_proxy/simple_proxy.c.
use snakesocks.Base.{◌≡◌, ℕ, refl, true, false, none, List, [], ◌∷◌, ◌==◌, if◌then◌else◌, arith}
use snakesocks.Io.{Bytes, ok}
use snakesocks.Io.Pipes.{Pipes, pipe_streams}
use snakesocks.Module.{make_auth_query}
use snakesocks.NetLib.{codes}
use snakesocks.NetLib.Frames.{frame}
use snakesocks.Environment.OnPipes.{pipe_env}
use snakesocks.Inbound.{Session}
use snakesocks.Outbound.{Channel}
use snakesocks.SimpleProxy.{client, server}
use snakesocks.Tunnel.{bytes_of}
use snakesocks.Tunnel.Simple.{simple_pipeline, simple_meeting}
use snakesocks.Tunnel.Transport.{sent_since}
use snakesocks.Tunnel.Session.{logged_in, Meets, session-delivers}
use snakesocks.Tunnel.Conversation.{
  Both, Event, from_local, told_local, told_hop, all_told, local_turn, local_speaks, Run, rests,
  goes_on,
}
use snakesocks.Tests.ConversationTests.{pipe_dials, pipe_network, read_all}
use snakesocks.Tests.Fixtures.{web, web-IsQuery, web-no_dns, mem, mem-IsMemory, conn}

abbrev holding : ℕ → Bytes → ℕ → Bytes → Pipes
holding fd bytes fd' bytes' = record {
  inbox = λ g. if g == fd then bytes else if g == fd' then bytes' else [];
  outbox = λ g. [];
  shut = λ g. false;
}

-- The server has the client's query before it.
abbrev at_server : Session Pipes (Unit {0})
at_server = record {
  world = holding 0 (frame (bytes_of (make_auth_query (client mem) conn))) 7 (codes "ok");
  conn = conn;
  next_hop = none;
}

-- The local program has sent two bytes to the client, and the server has replied.
abbrev at_client : Channel Pipes (Unit {0})
at_client = record {
  world = holding 3 (codes "hi") 4 (
      sent_since pipe_env pipe_streams 0 at_server.world
        (snakesocks.Inbound.do_auth pipe_env (server mem) 1080 0 at_server).1.world);
  conn = conn;
}

they-Meet :
    Meets pipe_env pipe_env pipe_streams pipe_streams
      (client mem)
      (server mem)
      (simple_pipeline mem mem-IsMemory (codes "key"))
      1080
      3
      4
      0
      7
      web
      at_client
      at_server
they-Meet = record {
  exchange = simple_meeting mem mem-IsMemory (codes "key") conn conn refl refl (omega arith);
  no_hop = refl;
  tunnel_open = refl;
  local_open = refl;
  connfd_open = refl;
  asks = refl;
  replies = refl;
}

abbrev logged : Both Pipes Pipes (Unit {0})
logged =
    logged_in pipe_env pipe_env pipe_streams pipe_streams (client mem) (server mem)
      (simple_pipeline mem mem-IsMemory (codes "key")) 1080 3 4 0 7 web at_client at_server

abbrev spoken : Both Pipes Pipes (Unit {0})
spoken =
    local_turn pipe_env pipe_env pipe_streams pipe_streams (client mem) (server mem) 27 1080 3 4 0 7
      web (read_all 3 logged.client.world) logged

abbrev Runs : Both Pipes Pipes (Unit {0}) → List Event → Both Pipes Pipes (Unit {0}) → Type 0
Runs = Run pipe_env pipe_env pipe_streams pipe_streams (client mem) (server mem) 27 1080 3 4 0 7 web

spoken-Run : Runs logged (from_local (codes "hi") ∷ []) spoken
unfolding snakesocks.Outbound.do_auth make_auth_query snakesocks.Outbound.send_pack
    snakesocks.Inbound.do_auth snakesocks.NetLib.recv_length_and_packet snakesocks.NetLib.htonl
    snakesocks.NetLib.ntohl snakesocks.NetLib.send_length_and_packet
spoken-Run =
    goes_on
      (local_speaks (codes "hi") (read_all 3 logged.client.world) refl
        (record {
          arrived = refl;
          sent = refl;
          still_open = refl;
          sent_outside = refl;
          outside_open = refl;
        })
        (omega arith) (omega arith) (omega arith))
      (rests spoken)

session-delivers_example :
    ((snakesocks.Outbound.do_auth pipe_env (client mem) 4 at_client).0 ≡ ok true)
    × ((snakesocks.Inbound.do_auth pipe_env (server mem) 1080 0 at_server).0 ≡ ok true)
    × (v : Both Pipes Pipes (Unit {0})) × (fs : List Event) × Runs spoken fs v
    × (all_told told_local fs ≡ [])
    × (all_told told_hop fs ≡ [])
    × (v.server.world.outbox 7 ≡ codes "hi")
    × (v.client.world.outbox 3 ≡ [])
session-delivers_example =
    session-delivers pipe_env pipe_env pipe_streams pipe_streams (client mem) (server mem)
      (simple_pipeline mem mem-IsMemory (codes "key")) 1080 3 4 0 7 web web-IsQuery web-no_dns
      (omega arith) (omega arith) (omega arith) pipe_dials pipe_network pipe_network at_client
      at_server spoken (from_local (codes "hi") ∷ []) they-Meet spoken-Run
