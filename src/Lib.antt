-- ===== src/Lib.antt =====
-- Snakesocks: a SOCKS5 proxy in two halves. A local program speaks SOCKS5 to the client
-- (src/native/src/client.cc, socks5.cc), which carries its data, packet by packet, over one TCP
-- connection to the server (src/native/src/server.cc, tunnel.cc), which talks to the destination. A
-- module, a shared object that the user supplies, authenticates the ends and encodes each packet.
--
-- Files and the code they model:
--   Io           die and sysdie (src/native/src/syserr.hpp), and rlib's sockIO as the record `SockIo`;
--                `Streams` states what the code relies on of stream sockets; Io.Pipes meets it
--   Module       bss.h, conn.h, client_query.h (src/modules), the methods of module_interface
--                (src/native/src/module.hpp, module.cc), and the module's functions as records;
--                Module.Loading has loadSo, over the dynamic loader as the record `Loader`, and
--                Module.Handle who closes the shared object
--   NetLib       namespace NetLib (src/native/src/lib/NetLib.hpp, NetLib.cc): framing, the query for
--                a domain, addresses as text; proofs in NetLib.Frames, NetLib.Dns, NetLib.Text
--   Addr         the class addr_info (src/native/src/socks5.hpp); proofs in Addr.Laws
--   Socks5       handshake_pkgs, connect_pkgs, unpackConnectionPacket (src/native/src/socks5.cc);
--                proofs in Socks5.Handshake and Socks5.Connect
--   Environment  select, close, the resolver and the calls of rlib that are not in Io, as the record
--                `Environment`; resolveDomainOnce (NetLib.cc); Environment.Endpoints has the loops
--                over getaddrinfo of newConnection (tunnel.cc) and Socks5Server::listen (socks5.cc), and
--                Environment.Winsock the same as compiled for Windows
--   Inbound      inbound_tunnel for one connection (tunnel.cc): doAuth, dealConnectionImpl as
--                `deal_connection_impl`, its loop as `serve`, one turn of it as `round`, and
--                dealConnection; proofs in Inbound.Dispatch (any input) and Inbound.Forward (data)
--   Outbound     outbound_tunnel (tunnel.cc) and SnakeConnection (connection.hpp); proofs in
--                Outbound.Laws
--   Relay        the rest of Socks5Connection (socks5.cc): dns_pkgs, passData as `pass_data` with its
--                loop `pass_rounds`, and launch; proofs in Relay.Packs and Relay.Closing
--   Listener     the loops of accept of both listeners, over ThreadPool.Pool
--   SimpleProxy  the module src/modules/simple_proxy/simple_proxy.c; proofs in SimpleProxy.Key,
--                SimpleProxy.Codec, SimpleProxy.Ranges, SimpleProxy.Struct (its packet, which se_proxy has
--                too)
--   SeProxy      the module src/modules/se_proxy/se_proxy.c; proofs in SeProxy.Login, SeProxy.Codec
--   Aes          src/modules/module_util/aes.c over a block cipher, the record `BlockCipher`; proofs in
--                Aes.Padding; Aes.FirstBlock has a cipher that meets the hypotheses
--   Octets       src/modules/module_util/octet_order.c; proofs in Octets.Reversal
--   Tunnel       no code of its own: `ModuleLaws` states what a module promises, Tunnel.Simple and
--                Tunnel.Secure that simple_proxy and se_proxy keep it, Tunnel.Login puts both ends'
--                authentication together, Tunnel.Transport one packet each way, and Tunnel.Dns the query
--                for a domain and its answer. Tunnel.Conversation has both ends at work at the same time:
--                `Turn` is one turn of either loop or of the network, `Run` any order of them;
--                Tunnel.Pipeline states what that needs of a module, Tunnel.Conversation.Wire reads the
--                bytes on their way as packets, Tunnel.Conversation.Conduit is the machine of two queues,
--                Tunnel.Conversation.Agreement and Tunnel.Conversation.Turns relate the two, with
--                Tunnel.Conversation.Dialling for the first packet, which makes the server connect, and
--                Tunnel.Conversation.Refinement, Tunnel.Conversation.Draining and
--                Tunnel.Conversation.Delivery draw the conclusions, Tunnel.Session starts from the
--                authentication; Tunnel.Conversation.ClientRounds and
--                Tunnel.Conversation.ServerRounds take the rounds of the two loops apart into turns
--   ModuleTest   the program src/modules/test.c with which a module is tested; proofs in
--                ModuleTest.Passing
--   Config       client_config and server_config (src/native/src/config.hpp); Boost's property tree is
--                the record `Boost`; proofs in Config.RoundTrip
--   Program      how wrapped_main of src/native/src/client.cc and server.cc gets the configuration, and
--                the log level; proofs in Program.Precedence
--   Startup      the two programs from there to their loops of accept, skcli_main and sksrv_main with
--                the objects that they construct; proofs in Startup.Failures
--   ThreadPool   the class ThreadPool (src/native/src/lib/threadPool.hpp), to which both listeners give
--                their connections: one worker and its owner, line by line, as `worker_step` and
--                `owner_step`; ThreadPool.Pool has the choice among the workers. ThreadPool.Invariant
--                is the table of the states they reach, ThreadPool.States and ThreadPool.Preserved check
--                it, ThreadPool.Handover and ThreadPool.Delivery say what it means for the tasks,
--                ThreadPool.Refinement compares them with an abstract machine, and ThreadPool.Hazards
--                plays orders of steps that go wrong
--   Base, Tests  shared lemmas; runs of the code and of the theorems on concrete inputs
--
-- How the code is modelled. Bytes are numbers below 256, and a buffer is a list. An operation maps a
-- state to a result and a state; a result is `ok`, `thrown` with one constructor per message, or
-- `overrun` where the code leaves a buffer or std::terminate ends the program, after which nothing is
-- claimed. The length that a module gives to a buffer is a uint32_t and wraps around. `char` is signed and
-- `size_t` has 64 bits, as on x86-64; the module's C structure is laid out little-endian with the
-- padding of that ABI, and the bytes that the C code leaves unset are a parameter, `Memory`. A
-- constructor's `throw` does not run the destructor of its own class, only those of the members, and
-- `rlib_defer` runs on both ways out. A module_interface that is moved leaves an object without a handle
-- behind, and each of the objects is destroyed where C++ does. What the workers of a pool do while addTask
-- runs is a parameter of the listeners, `during`.
--
-- Fuel. The loops over `select` run until a connection ends, which the peers decide, so `serve` and
-- `pass_rounds` take the number of rounds, and are `running` when it is used up; the statements about
-- them hold for every number. `resolve_server` and the start of the client take the number of attempts,
-- and `accept_rounds` and `tunnel_rounds` the number of rounds of loops that have no end. All other loops are
-- structural, and the steps of a thread pool's worker and its owner within one call have a bound that is
-- proved. A std::mutex is a flag, whoever locks and unlocks it.
--
-- Hypotheses on what is not in the repository. `Streams`: a stream delivers bytes in order, a receive
-- of n bytes returns n or throws, a send to an open socket queues all its bytes. `CipherLaws`: whole
-- blocks decrypt to what was encrypted, and less than a block is overrun; `FirstBlockOnly`: the cipher
-- changes the first block alone, as the kokke_aes.c of the repository does. `Closing`: close
-- closes its descriptor and opens none. `Dials`: the connection to the next hop succeeds. `ModuleLaws`: what one half of a module encodes the other
-- decodes, once they are linked; `PipelineLaws`: the same when several packets are on their way;
-- `LoginLaws`: their authentication links them; the module is the user's. `Network`: bytes that were
-- sent can arrive; `Meanwhile`: reading from outside leaves the tunnel's socket as it is. `IniFiles`:
-- what Boost documents of a property tree, where a put also makes the nodes above its path, and its
-- files. Io.Pipes, Environment.OnPipes, Aes.FirstBlock,
-- Tunnel.Simple, Tunnel.Secure and the tests instantiate them.
--
-- Not modelled: rlib (src/native/src/lib/rlib), the author's library, whose calls, the parsing of the
-- command line among them, are parameters; kokke_aes.c, a copy of a third-party cipher; logging;
-- allocation and ownership of buffers; the threads of the connections, which share no mutable state;
-- the formatters and test programs beside src/modules/test.c; src/server-go; src/modules/example.
pub mod Aes
pub mod Base
pub mod Io
pub mod Module
pub mod ModuleTest
pub mod NetLib
pub mod Addr
pub mod Config
pub mod Octets
pub mod Program
pub mod SeProxy
pub mod Socks5
pub mod Environment
pub mod Inbound
pub mod Startup
mod Tests
pub mod Listener
pub mod Outbound
pub mod Relay
pub mod SimpleProxy
pub mod ThreadPool
pub mod Tunnel
