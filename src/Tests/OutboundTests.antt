-- ===== src/Tests/OutboundTests.antt =====
-- The client's connection to the server, src/native/src/tunnel.cc, connection.hpp and socks5.hpp, on
-- concrete inputs.
use snakesocks.Base.{ℕ, ◌≡◌, refl, true, false, [], ◌∷◌, ◌==◌, if◌then◌else◌, replicate, arith}
use snakesocks.Io.{ok, thrown, closed, host_not_found}
use snakesocks.Io.Pipes.{Pipes, pipe_io, piped}
use snakesocks.Module.{received, on_auth_reply, make_auth_query}
use snakesocks.NetLib.{codes}
use snakesocks.NetLib.Frames.{frame}
use snakesocks.Environment.{Environment, v4, resolve_domain_once}
use snakesocks.Environment.Endpoints.{new_connection}
use snakesocks.Environment.OnPipes.{pipe_env, pipe_closing}
use snakesocks.Addr.{set_ipv4}
use snakesocks.Socks5.{handshake_pkgs, connect_pkgs}
use snakesocks.Outbound.{OutboundTunnel, Channel, resolve_server, do_auth, init_conn_info, connect}
use snakesocks.Outbound.Laws.{FoundAfter}
use snakesocks.Relay.{launch}
use snakesocks.Relay.Closing.{launch-closes, deal_connection-closed}
use snakesocks.SimpleProxy.{client}
use snakesocks.Tests.Fixtures.{mem}

-- A resolver that fails once.
abbrev flaky_env : Environment
flaky_env = record pipe_env {
  resolve = λ name p.
      if p.shut 99
      then (ok (v4 (10 ∷ 0 ∷ 0 ∷ 1 ∷ []) ∷ []), p)
      else (thrown host_not_found, record p { shut = λ fd. true });
}

abbrev once : Pipes
once = record (piped []) { shut = λ fd. true }

found_later : FoundAfter flaky_env (codes "a.io") 1 (v4 (10 ∷ 0 ∷ 0 ∷ 1 ∷ [])) (piped []) once
unfolding resolve_domain_once
found_later = (once, refl, refl)

abbrev tunnel : OutboundTunnel
tunnel = record {
  server_addr = codes "a.io";
  server_port = 1080;
  passphrase = codes "key";
  nx_retry = true;
  conv_server_addr = replicate 16 0;
  conv_passphrase = received (codes "key");
}

-- The server accepts, or refuses, on descriptor 9; the local program, on 0, asks for 10.0.0.1 and
-- then closes.
abbrev site : ℕ → Pipes
site answer = record {
  inbox = λ fd.
      if fd == 9
      then frame (answer ∷ [])
      else if fd == 0
      then 5 ∷ 1 ∷ 0 ∷ 5 ∷ 1 ∷ 0 ∷ 1 ∷ 10 ∷ 0 ∷ 0 ∷ 1 ∷ 1 ∷ 187 ∷ []
      else [];
  outbox = λ fd. [];
  shut = λ fd. false;
}

abbrev after_handshake : Pipes
after_handshake = (handshake_pkgs pipe_io 0 (site 1)).1

abbrev after_request : Pipes
after_request = (connect_pkgs pipe_io 0 after_handshake).1

abbrev after_connect : Channel Pipes (Unit {0})
after_connect = (connect pipe_env (client mem) tunnel after_request).1

abbrev after_launch : Pipes
after_launch = (launch pipe_env (client mem) tunnel 4 0 (site 1)).1

shaken : handshake_pkgs pipe_io 0 (site 1) ≡ (ok tt, after_handshake)
unfolding handshake_pkgs
shaken = refl

asked :
    connect_pkgs pipe_io 0 after_handshake
    ≡ (ok (set_ipv4 (10 ∷ 0 ∷ 0 ∷ 1 ∷ []) 443), after_request)
unfolding connect_pkgs handshake_pkgs
asked = refl

up : connect pipe_env (client mem) tunnel after_request ≡ (ok 9, after_connect)
unfolding connect new_connection make_auth_query snakesocks.Outbound.send_pack connect_pkgs
    handshake_pkgs snakesocks.NetLib.htonl snakesocks.NetLib.ntohl on_auth_reply
    snakesocks.SimpleProxy.first_byte
up = refl

ended : launch pipe_env (client mem) tunnel 4 0 (site 1) ≡ (ok closed, after_launch)
unfolding launch handshake_pkgs connect_pkgs new_connection make_auth_query
    snakesocks.Outbound.send_pack snakesocks.NetLib.htonl snakesocks.NetLib.ntohl on_auth_reply
    snakesocks.SimpleProxy.first_byte snakesocks.Addr.to_query_template
    snakesocks.Environment.is_set
ended = refl

launch-closes_example : after_launch.shut 9 ≡ true
launch-closes_example =
    launch-closes pipe_env pipe_closing (client mem) tunnel 4 0 9
      (set_ipv4 (10 ∷ 0 ∷ 0 ∷ 1 ∷ []) 443) (site 1) after_handshake after_request after_launch
      after_connect shaken asked up (omega arith) ended

abbrev after_all : Pipes
after_all = (snakesocks.Relay.deal_connection pipe_env (client mem) tunnel 4 0 (site 1)).1

dealt_with :
    snakesocks.Relay.deal_connection pipe_env (client mem) tunnel 4 0 (site 1)
    ≡ (ok closed, after_all)
unfolding snakesocks.Relay.deal_connection handshake_pkgs connect_pkgs new_connection
    make_auth_query snakesocks.Outbound.send_pack snakesocks.NetLib.htonl snakesocks.NetLib.ntohl
    on_auth_reply snakesocks.SimpleProxy.first_byte snakesocks.Addr.to_query_template
    snakesocks.Environment.is_set
dealt_with = refl

deal_connection-closed_example : (after_all.shut 9 ≡ true) × (after_all.shut 0 ≡ true)
deal_connection-closed_example =
    deal_connection-closed pipe_env pipe_closing (client mem) tunnel 4 0 9
      (set_ipv4 (10 ∷ 0 ∷ 0 ∷ 1 ∷ []) 443) (site 1) after_handshake after_request after_all
      after_connect shaken asked up (omega arith) dealt_with
