-- ===== src/Tests/ConversationTests.antt =====
-- Both ends of src/native/src/socks5.cc and tunnel.cc at work at the same time, on concrete inputs, with the module
-- src/modules/simple_proxy/simple_proxy.c.
use snakesocks.Base.{
  ◌≡◌, ℕ, refl, sym, append-nil, none, inr, false, List, [], ◌∷◌, ◌++◌, ◌==◌, ==_refl,
  if◌then◌else◌, arith,
}
use snakesocks.Io.{Bytes, ok, running}
use snakesocks.Io.Pipes.{Pipes, pipe_io, pipe_streams, update}
use snakesocks.NetLib.{codes}
use snakesocks.Environment.OnPipes.{pipe_env}
use snakesocks.SimpleProxy.{client, server}
use snakesocks.Tunnel.Simple.{simple_pipeline}
use snakesocks.Tunnel.Conversation.{
  Both, Meanwhile, Event, quiet, from_local, from_hop, told_local, told_hop, all_told, local_turn,
  server_turn, hop_turn, Turn, local_speaks, hop_speaks, reaches_server, server_hears, Run, rests,
  goes_on,
}
use snakesocks.Tunnel.Conversation.Conduit.{Conduit, ConveysAll}
use snakesocks.Tunnel.Conversation.Agreement.{Agrees}
use snakesocks.Tunnel.Conversation.Dialling.{Dials}
use snakesocks.Tunnel.Conversation.Refinement.{Run-ConveysAll}
use snakesocks.Tunnel.Conversation.Draining.{Network}
use snakesocks.Tunnel.Conversation.Delivery.{Run-in_order, Run-delivers}
use snakesocks.Tests.Fixtures.{web, web-IsQuery, web-no_dns, mem, mem-IsMemory, conn}

abbrev pub deliver_pipe : ℕ → Bytes → Pipes → Pipes
deliver_pipe fd bs p = record p { inbox = update p.inbox fd (p.inbox fd ++ bs) }

pub pipe_delivers :
    (fd outside : ℕ) (bs : Bytes) (p : Pipes)
    → Meanwhile pipe_io pipe_streams fd outside bs p (deliver_pipe fd bs p)
pipe_delivers fd outside bs p = record {
  arrived = rw (==_refl fd) refl;
  sent = refl;
  still_open = refl;
  sent_outside = refl;
  outside_open = refl;
}

abbrev pub pipe_network : Network pipe_io pipe_streams
pipe_network = record { deliver = deliver_pipe; delivers = pipe_delivers }

abbrev with_inbox : ℕ → Bytes → Pipes
with_inbox fd bytes = record {
  inbox = λ g. if g == fd then bytes else [];
  outbox = λ g. [];
  shut = λ g. false;
}

abbrev pub read_all : ℕ → Pipes → Pipes
read_all fd p = record p { inbox = update p.inbox fd [] }

abbrev pub pipe_dials : Dials pipe_env pipe_streams 0 7
pipe_dials = record {
  dialled = λ host port p. p;
  connects = λ host port p. refl;
  nothing_sent = λ host port p. refl;
  is_open = λ host port p. refl;
  spares = λ host port p. record { unread = refl; sent = refl; still_open = refl };
}

-- The local program, on descriptor 3, and the next hop, which will be on 7, have each sent two bytes; the server is not
-- connected to the next hop yet.
abbrev start : Both Pipes Pipes (Unit {0})
start = record {
  client = record { world = with_inbox 3 (codes "hi"); conn = conn };
  server = record { world = with_inbox 7 (codes "ok"); conn = conn; next_hop = none };
  up = [];
  down = [];
  outcome = ok running;
}

abbrev Turns : Both Pipes Pipes (Unit {0}) → Event → Both Pipes Pipes (Unit {0}) → Type 0
Turns =
    Turn pipe_env pipe_env pipe_streams pipe_streams (client mem) (server mem) 27 1080 3 4 0 7 web

abbrev Runs : Both Pipes Pipes (Unit {0}) → List Event → Both Pipes Pipes (Unit {0}) → Type 0
Runs = Run pipe_env pipe_env pipe_streams pipe_streams (client mem) (server mem) 27 1080 3 4 0 7 web

abbrev sent_up : Both Pipes Pipes (Unit {0})
sent_up =
    local_turn pipe_env pipe_env pipe_streams pipe_streams (client mem) (server mem) 27 1080 3 4 0 7
      web (read_all 3 start.client.world) start

abbrev arrived_up : Both Pipes Pipes (Unit {0})
arrived_up = record sent_up {
  server = record sent_up.server { world = deliver_pipe 0 sent_up.up sent_up.server.world };
  up = [];
}

abbrev heard_up : Both Pipes Pipes (Unit {0})
heard_up =
    server_turn pipe_env pipe_env pipe_streams pipe_streams (client mem) (server mem) 27 1080 3 4 0
      7 web arrived_up

abbrev sent_both : Both Pipes Pipes (Unit {0})
sent_both =
    hop_turn pipe_env pipe_env pipe_streams pipe_streams (client mem) (server mem) 27 1080 3 4 0 7
      web (read_all 7 heard_up.server.world) heard_up

abbrev told : List Event
told = from_local (codes "hi") ∷ quiet ∷ quiet ∷ from_hop (codes "ok") ∷ []

start-Agrees :
    Agrees pipe_env pipe_env pipe_streams pipe_streams
      (client mem)
      (server mem)
      (simple_pipeline mem mem-IsMemory (codes "key"))
      3
      4
      0
      7
      start
      (record { up = []; down = []; at_hop = []; at_local = [] })
start-Agrees = record {
  client_holds = refl;
  server_holds = refl;
  has_hop = inr refl;
  up_wire = refl;
  down_wire = refl;
  hop_got = refl;
  local_got = refl;
  tunnel_open = refl;
  local_open = refl;
  connfd_open = refl;
  hop_open = λ e. refl;
  well = refl;
}

local_part : Turns start (from_local (codes "hi")) sent_up
local_part =
    local_speaks (codes "hi") (read_all 3 start.client.world) refl
      (record {
        arrived = refl;
        sent = refl;
        still_open = refl;
        sent_outside = refl;
        outside_open = refl;
      })
      (omega arith) (omega arith) (omega arith)

arrival : Turns sent_up quiet arrived_up
arrival =
    reaches_server sent_up.up [] arrived_up.server.world (sym (append-nil sent_up.up))
      (pipe_delivers 0 7 sent_up.up sent_up.server.world)

hearing : Turns arrived_up quiet heard_up
unfolding snakesocks.NetLib.ntohl snakesocks.Relay.on_local_data snakesocks.Module.encode
    snakesocks.SimpleProxy.encode snakesocks.Outbound.send_pack snakesocks.NetLib.htonl
hearing = server_hears (omega arith)

hop_part : Turns heard_up (from_hop (codes "ok")) sent_both
unfolding snakesocks.Module.returned snakesocks.Inbound.on_client_data
    snakesocks.NetLib.recv_length_and_packet snakesocks.Relay.on_local_data snakesocks.Module.encode
    snakesocks.SimpleProxy.encode snakesocks.Outbound.send_pack snakesocks.NetLib.htonl
    snakesocks.NetLib.ntohl snakesocks.SimpleProxy.decode snakesocks.NetLib.is_dns_query
hop_part =
    hop_speaks (codes "ok") (read_all 7 heard_up.server.world) refl refl
      (record {
        arrived = refl;
        sent = refl;
        still_open = refl;
        sent_outside = refl;
        outside_open = refl;
      })
      (omega arith) (omega arith) (omega arith)

told-Run : Runs start told sent_both
told-Run =
    goes_on local_part (goes_on arrival (goes_on hearing (goes_on hop_part (rests sent_both))))

Run-ConveysAll_example :
    (b : Conduit) × ConveysAll (record { up = []; down = []; at_hop = []; at_local = [] }) told b
    × Agrees pipe_env pipe_env pipe_streams pipe_streams
        (client mem)
        (server mem)
        (simple_pipeline mem mem-IsMemory (codes "key"))
        3
        4
        0
        7
        sent_both
        b
Run-ConveysAll_example =
    Run-ConveysAll pipe_env pipe_env pipe_streams pipe_streams (client mem) (server mem)
      (simple_pipeline mem mem-IsMemory (codes "key")) 1080 3 4 0 7 web web-IsQuery web-no_dns
      (omega arith) (omega arith) (omega arith) pipe_dials {t = start} {u = sent_both} {es = told}
      (record { up = []; down = []; at_hop = []; at_local = [] }) start-Agrees told-Run

Run-in_order_example :
    (sent_both.outcome ≡ ok running)
    × (up : Bytes) × (down : Bytes) × (sent_both.server.world.outbox 7 ++ up ≡ codes "hi")
    × (sent_both.client.world.outbox 3 ++ down ≡ codes "ok")
Run-in_order_example =
    Run-in_order pipe_env pipe_env pipe_streams pipe_streams (client mem) (server mem)
      (simple_pipeline mem mem-IsMemory (codes "key")) 1080 3 4 0 7 web web-IsQuery web-no_dns
      (omega arith) (omega arith) (omega arith) pipe_dials start sent_both told start-Agrees
      told-Run

Run-delivers_example :
    (v : Both Pipes Pipes (Unit {0})) × (fs : List Event) × Runs sent_both fs v
    × (all_told told_local fs ≡ [])
    × (all_told told_hop fs ≡ [])
    × (v.server.world.outbox 7 ≡ codes "hi")
    × (v.client.world.outbox 3 ≡ codes "ok")
Run-delivers_example =
    Run-delivers pipe_env pipe_env pipe_streams pipe_streams (client mem) (server mem)
      (simple_pipeline mem mem-IsMemory (codes "key")) 1080 3 4 0 7 web web-IsQuery web-no_dns
      (omega arith) (omega arith) (omega arith) pipe_dials pipe_network pipe_network start sent_both
      told start-Agrees told-Run
