-- ===== src/Relay.antt =====
-- Socks5Connection of src/native/src/socks5.hpp and socks5.cc beyond its packets: the DNS query over
-- the tunnel, the loop that passes data, and `launch`. A round of the loop is one return of `select`.
pub mod Closing
pub mod Packs
use snakesocks.Base.{
  ℕ, zero, suc, Bool, true, false, not, none, some, [], ◌∷◌, length, ◌==◌, if◌then◌else◌,
}
use snakesocks.Io.{
  Status, running, closed, select_failed, read_failed, cannot_resolve, Result, ok, thrown, overrun,
  M, follow, ◌>>=◌, ◌>>◌, return, die,
}
use snakesocks.Module.{ClientQuery, ClientFunctions, encode, decode, received}
use snakesocks.NetLib.{ntohl}
use snakesocks.Environment.{Environment, is_set}
use snakesocks.Addr.{
  AddrInfo, AddrType, null, ipv4, ipv6, domain, set_ipv6, is_unset, try_6to4, to_query_template,
  make_dns_query_body,
}
use snakesocks.Socks5.{handshake_pkgs, connect_pkgs, lift}
use snakesocks.Outbound.{
  Channel, OutboundTunnel, Client, on_world, call, send_pack, connect, disconnect,
}

abbrev pub is_domain : AddrType → Bool
is_domain null = false
is_domain ipv4 = false
is_domain ipv6 = false
is_domain domain = true

-- The resolved address, from the response to the query.
unfoldable pub resolved : ℕ → ClientQuery → Result AddrInfo
resolved port response =
    let goodaddr = set_ipv6 response.destination_ip port in
    if is_unset goodaddr then thrown cannot_resolve else try_6to4 goodaddr

module _ {I : Type 0} (env : Environment) (client : ClientFunctions I) (m_fd connfd : ℕ) where
  unfoldable pub dns_pkgs : AddrInfo → Client env client AddrInfo
  dns_pkgs raw_addr = if not (is_domain raw_addr.type) then return raw_addr else (do
    let pkg = make_dns_query_body raw_addr
    first_pack ← call (encode client pkg.payload pkg)
    on_world (send_pack env connfd first_pack.str)
    head ← on_world (env.io.recvn connfd 4)
    first_return_pack ← on_world (env.io.recvn connfd (ntohl head))
    dns_response ← call (decode client (received first_return_pack))
    lift (resolved raw_addr.port dns_response))

  -- This hop is readable.
  unfoldable pub on_local_data : ClientQuery → Client env client Status
  on_local_data template = on_world (env.readall m_fd) >>= elim [
    | none ↦ die read_failed
    | some ret ↦ if length ret == 0 then return closed else (do
      encoded ← call (encode client (received ret) template)
      on_world (send_pack env connfd encoded.str)
      return running)
  ]

  -- The next hop is readable.
  unfoldable pub on_remote_data : Client env client Status
  on_remote_data = do
    head ← on_world (env.io.recvn connfd 4)
    if ntohl head == 0 then return closed else (do
      bridge_buffer ← on_world (env.io.recvn connfd (ntohl head))
      decoded ← call (decode client (received bridge_buffer))
      on_world (env.io.sendn m_fd decoded.payload.str)
      return running)

  unfoldable pub round : ClientQuery → Client env client Status
  unfolding on_local_data on_remote_data
  round template = on_world (env.select (m_fd ∷ connfd ∷ [])) >>= elim [
    | none ↦ die select_failed
    | some ready ↦ (if is_set ready m_fd then on_local_data template else return running) >>= elim [
      | closed ↦ return closed
      | running ↦ if is_set ready connfd then on_remote_data else return running
    ]
  ]

  -- The loop, for at most so many rounds; it is still running when they are used up.
  unfoldable pub pass_rounds : ℕ → ClientQuery → Client env client Status
  unfolding round
  pass_rounds zero template = return running
  pass_rounds (suc rounds) template =
      round template >>= elim [ running ↦ pass_rounds rounds template | closed ↦ return closed ]

  unfoldable pub pass_data : ℕ → AddrInfo → Client env client Status
  unfolding pass_rounds
  pass_data rounds resolved_addr = do
    template ← lift (to_query_template resolved_addr)
    pass_rounds rounds template

module _ {I : Type 0} (env : Environment) (client : ClientFunctions I) (t : OutboundTunnel) where
  -- The destructor of `nextHop` runs when the block is left, by its end or by an exception.
  unfoldable pub leave : ℕ → Result Status × Channel env.io.World I → Result Status × env.io.World
  unfolding disconnect
  leave connfd (ok running, s) = (ok running, s.world)
  leave connfd (ok closed, s) = (ok closed, (disconnect env client connfd s).world)
  leave connfd (thrown e, s) = (thrown e, (disconnect env client connfd s).world)
  leave connfd (overrun, s) = (overrun, s.world)

  -- What follows the construction of `nextHop`, if that does not throw.
  unfoldable pub connected :
      ℕ → ℕ → AddrInfo → Result ℕ × Channel env.io.World I → Result Status × env.io.World
  unfolding leave dns_pkgs pass_data
  connected rounds m_fd raw_addr (ok connfd, s) = leave connfd (
      follow (dns_pkgs env client m_fd connfd raw_addr s) (pass_data env client m_fd connfd rounds))
  connected rounds m_fd raw_addr (thrown e, s) = (thrown e, s.world)
  connected rounds m_fd raw_addr (overrun, s) = (overrun, s.world)

  unfoldable pub next_hop : ℕ → ℕ → AddrInfo → M env.io.World Status
  unfolding connect connected
  next_hop rounds m_fd raw_addr w = connected rounds m_fd raw_addr (connect env client t w)

  -- The `catch` of `launch`.
  abbrev pub caught : Result Status × env.io.World → Result Status × env.io.World
  caught (ok status, w) = (ok status, w)
  caught (thrown e, w) = (ok closed, w)
  caught (overrun, w) = (overrun, w)

  unfoldable pub launch : ℕ → ℕ → M env.io.World Status
  unfolding next_hop
  launch rounds m_fd w = caught (
      (do
        handshake_pkgs env.io m_fd
        raw_addr ← connect_pkgs env.io m_fd
        next_hop rounds m_fd raw_addr)
        w)

  -- The destructor of `Socks5Connection`.
  abbrev pub destructed : ℕ → Result Status × env.io.World → Result Status × env.io.World
  destructed m_fd (ok running, w) = (ok running, w)
  destructed m_fd (ok closed, w) = (ok closed, env.close m_fd w)
  destructed m_fd (thrown e, w) = (thrown e, env.close m_fd w)
  destructed m_fd (overrun, w) = (overrun, w)

  -- `Socks5Server::dealConnection`
  unfoldable pub deal_connection : ℕ → ℕ → M env.io.World Status
  unfolding launch
  deal_connection rounds m_fd w = destructed m_fd (launch rounds m_fd w)
