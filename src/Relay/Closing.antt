-- ===== src/Relay/Closing.antt =====
-- What launch of src/native/src/socks5.hpp leaves behind: the descriptors of the local program and of
-- the tunnel are closed, and no exception leaves it.
use mathlib.Core.Path.{subst}
use snakesocks.Base.{refl, ℕ, ◌≡◌, ◌≢◌, true, ap, ==_ne}
use snakesocks.Io.{Status, running, closed, Result, ok, thrown, overrun, follow}
use snakesocks.Module.{ClientFunctions}
use snakesocks.Environment.{Environment}
use snakesocks.Inbound.Dispatch.{Closing}
use snakesocks.Addr.{AddrInfo}
use snakesocks.Socks5.{handshake_pkgs, connect_pkgs}
use snakesocks.Outbound.{OutboundTunnel, Channel, connect, disconnect}
use snakesocks.Relay.{destructed, dns_pkgs, pass_data, leave, connected, next_hop, caught, launch}

module _ {I : Type 0} (env : Environment) (closing : Closing env) (client : ClientFunctions I)
    (t : OutboundTunnel) where
  -- The socket is closed if the call has ended.
  abbrev Ended : ℕ → Result Status × env.io.World → Type 0
  Ended fd (ok running, w) = Unit {0}
  Ended fd (ok closed, w) = closing.is_closed w fd ≡ true
  Ended fd (thrown e, w) = closing.is_closed w fd ≡ true
  Ended fd (overrun, w) = Unit {0}

  disconnect-closed :
      (fd : ℕ) (s : Channel env.io.World I)
      → fd ≢ 0
      → closing.is_closed (disconnect env client fd s).world fd ≡ true
  unfolding disconnect
  disconnect-closed fd s h = rw (==_ne fd 0 h) (closing.close_self fd s.world)

  leave-Ended :
      (fd : ℕ) (p : Result Status × Channel env.io.World I)
      → fd ≢ 0
      → Ended fd (leave env client t fd p)
  unfolding leave
  leave-Ended fd (ok running, s) h = tt
  leave-Ended fd (ok closed, s) h = unfold disconnect in disconnect-closed fd s h
  leave-Ended fd (thrown e, s) h = unfold disconnect in disconnect-closed fd s h
  leave-Ended fd (overrun, s) h = tt

  caught-closed :
      (fd : ℕ) (p : Result Status × env.io.World) (w : env.io.World)
      → Ended fd p
      → caught env client t p ≡ (ok closed, w)
      → closing.is_closed w fd ≡ true
  caught-closed fd (ok running, v) w h e = absurd (cc)
  caught-closed fd (ok closed, v) w h e =
      subst (λ u. closing.is_closed u fd ≡ true) (ap (λ p. p.1) e) h
  caught-closed fd (thrown x, v) w h e =
      subst (λ u. closing.is_closed u fd ≡ true) (ap (λ p. p.1) e) h
  caught-closed fd (overrun, v) w h e = absurd (cc)

  -- Once the tunnel to the server is up, with a descriptor other than 0, it is closed when `launch`
  -- returns, also when that is because of an exception.
  pub launch-closes :
      (rounds m_fd connfd : ℕ) (raw_addr : AddrInfo) (w u v w' : env.io.World)
      (s : Channel env.io.World I)
      → handshake_pkgs env.io m_fd w ≡ (ok tt, u)
      → connect_pkgs env.io m_fd u ≡ (ok raw_addr, v)
      → connect env client t v ≡ (ok connfd, s)
      → connfd ≢ 0
      → launch env client t rounds m_fd w ≡ (ok closed, w')
      → closing.is_closed w' connfd ≡ true
  unfolding launch next_hop connected
  launch-closes rounds m_fd connfd raw_addr w u v w' s shaken asked up h e =
      caught-closed connfd _ w'
        (unfold leave in
          leave-Ended connfd
            (follow (dns_pkgs env client m_fd connfd raw_addr s)
              (pass_data env client m_fd connfd rounds))
            h)
        (rw (shaken, asked, up) at e)

  destructed-closed :
      (fd m_fd : ℕ) (p : Result Status × env.io.World) (w : env.io.World)
      → ((u : env.io.World) → p ≡ (ok closed, u) → closing.is_closed u fd ≡ true)
      → destructed env client t m_fd p ≡ (ok closed, w)
      → (closing.is_closed w fd ≡ true) × (closing.is_closed w m_fd ≡ true)
  destructed-closed fd m_fd (ok running, v) w h e = absurd (cc)
  destructed-closed fd m_fd (ok closed, v) w h e =
      subst (λ u. (closing.is_closed u fd ≡ true) × (closing.is_closed u m_fd ≡ true))
        (ap (λ p. p.1) e) (closing.close_keeps m_fd fd v (h v refl), closing.close_self m_fd v)
  destructed-closed fd m_fd (thrown x, v) w h e = absurd (cc)
  destructed-closed fd m_fd (overrun, v) w h e = absurd (cc)

  -- Once the tunnel to the server is up, with a descriptor other than 0: when the local program's connection has
  -- been dealt with, by its end or by an exception, both the descriptor of the tunnel and that of the local
  -- program are closed.
  pub deal_connection-closed :
      (rounds m_fd connfd : ℕ) (raw_addr : AddrInfo) (w u v w' : env.io.World)
      (s : Channel env.io.World I)
      → handshake_pkgs env.io m_fd w ≡ (ok tt, u)
      → connect_pkgs env.io m_fd u ≡ (ok raw_addr, v)
      → connect env client t v ≡ (ok connfd, s)
      → connfd ≢ 0
      → snakesocks.Relay.deal_connection env client t rounds m_fd w ≡ (ok closed, w')
      → (closing.is_closed w' connfd ≡ true) × (closing.is_closed w' m_fd ≡ true)
  unfolding snakesocks.Relay.deal_connection
  deal_connection-closed rounds m_fd connfd raw_addr w u v w' s shaken asked up h e =
      destructed-closed connfd m_fd (launch env client t rounds m_fd w) w'
        (λ x. launch-closes rounds m_fd connfd raw_addr w u v x s shaken asked up h) e
