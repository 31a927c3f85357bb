-- ===== src/Tests/Fixtures.antt =====
-- Queries, their packets under the module src/modules/simple_proxy/simple_proxy.c, and connections,
-- for the tests.
use snakesocks.Base.{
  ℕ, ◌≡◌, refl, false, Option, none, some, [], ◌∷◌, ◌++◌, ◌==◌, if◌then◌else◌, replicate, arith,
  length,
}
use snakesocks.Io.{Bytes}
use snakesocks.Io.Pipes.{Pipes, update, piped}
use snakesocks.Module.{ClientQuery, ConnectInfo, IsQuery, received}
use snakesocks.NetLib.{codes, all_zero, dns_head, is_dns_query}
use snakesocks.NetLib.Frames.{frame}
use snakesocks.Inbound.{Session}
use snakesocks.SimpleProxy.{Memory, simple_hash, xor_all, data_struct}
use snakesocks.SimpleProxy.Struct.{IsMemory}

abbrev pub web : ClientQuery
web = record {
  destination_ip = 10 ∷ 0 ∷ 0 ∷ 1 ∷ replicate 12 0;
  destination_port = 443;
  payload = received (104 ∷ 105 ∷ []);
}

abbrev pub mem : Memory
mem = record { pad_0 = 1; pad_1 = 2; end_0 = 3; end_1 = 4; end_2 = 5; unset = web }

pub mem-IsMemory : IsMemory mem
mem-IsMemory = record { padding_bytes = omega arith; end_bytes = omega arith }

pub web-IsQuery : IsQuery web
web-IsQuery = record {
  address_length = refl;
  address_bytes = omega arith;
  port_range = omega arith;
  payload_length = omega arith;
  payload_bytes = omega arith;
}

abbrev pub conn : ConnectInfo (Unit {0})
conn = record {
  server_ip = replicate 16 0;
  server_port = 1080;
  passphrase = received (codes "key");
  connect_fd = 4;
  additional_info = none;
}

-- The packet for `web`.
abbrev pub web_packet : Bytes
web_packet = xor_all (simple_hash (codes "key")) (data_struct mem web)

abbrev pub session : Option ℕ → Bytes → Session Pipes (Unit {0})
session hop bytes = record { world = piped bytes; conn = conn; next_hop = hop }

pub length-web_packet : length web_packet ≡ 29
unfolding xor_all data_struct
length-web_packet = refl

-- The query for "a.io" on port 443, as it is read, and the response.
abbrev pub asking : ClientQuery
asking = record {
  destination_ip = replicate 16 0;
  destination_port = 443;
  payload = received (dns_head ++ (codes "a.io" ++ (0 ∷ [])));
}

abbrev pub answer : ClientQuery
answer = record {
  destination_ip = 93 ∷ 184 ∷ 216 ∷ 34 ∷ replicate 12 0;
  destination_port = 443;
  payload = received [];
}

abbrev pub packet_for : ClientQuery → Bytes
packet_for q = xor_all (simple_hash (codes "key")) (data_struct mem q)

pub length-packet_for : (length (packet_for asking) ≡ 64) × (length (packet_for answer) ≡ 27)
unfolding xor_all data_struct
length-packet_for = (refl, refl)

-- What the client has sent.
abbrev pub stream : Bytes → Bytes
stream packet = frame packet ++ (9 ∷ [])

pub web-no_dns : is_dns_query web ≡ false
unfolding is_dns_query all_zero
web-no_dns = refl

-- What the next hop sent, on its way to the client.
abbrev pub from_hop : ClientQuery
from_hop = record {
  destination_ip = replicate 16 0;
  destination_port = 1080;
  payload = received (104 ∷ 105 ∷ []);
}

abbrev pub hop_has : Pipes
hop_has = record (piped (9 ∷ [])) { inbox = λ fd. if fd == 7 then 104 ∷ 105 ∷ [] else 9 ∷ [] }

abbrev pub hop_read : Pipes
hop_read = record hop_has { inbox = update hop_has.inbox 7 [] }

abbrev pub at_hop : Session Pipes (Unit {0})
at_hop = record { world = hop_has; conn = conn; next_hop = some 7 }
