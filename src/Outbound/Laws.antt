-- ===== src/Outbound/Laws.antt =====
-- What outbound_tunnel and SnakeConnection of src/native/src/tunnel.cc and connection.hpp do: the
-- resolution with its retries, the authentication over stream sockets, and the way out when it fails.
use snakesocks.Base.{
  ℕ, zero, suc, ◌≤◌, ◌≡◌, ◌≢◌, refl, ◌∙◌, true, some, ◌++◌, length, arith, le→leb, ◌<◌,
}
use snakesocks.Io.{Bytes, ok, thrown, host_not_found, Streams}
use snakesocks.Module.{
  BinarySafeString, ConnectInfo, ClientFunctions, make_auth_query, on_auth_reply,
}
use snakesocks.NetLib.{max_packet}
use snakesocks.NetLib.Frames.{
  frame, ntohl-htonl, after_send, after_recv, Same, Same-trans, after_send-Same, after_recv-Same,
}
use snakesocks.Environment.{Environment, Address, resolve_domain_once}
use snakesocks.Outbound.{Channel, on_resolved, resolve_server, do_auth}
use snakesocks.Outbound.Frames.{send_pack_lem, recv_pack_lem}

module _ (env : Environment) (domain : Bytes) where
  -- The resolver finds no host so many times, and then finds the address.
  abbrev pub FoundAfter : ℕ → Address → env.io.World → env.io.World → Type 0
  FoundAfter zero a w u = resolve_domain_once env domain w ≡ (ok a, u)
  FoundAfter (suc failures) a w u =
      (v : env.io.World) × (resolve_domain_once env domain w ≡ (thrown host_not_found, v))
      × FoundAfter failures a v u

  -- With `nx_retry`, an address that is found after some failures is the result, for every number of
  -- attempts above that of the failures.
  pub resolve_server-retry :
      (failures attempts : ℕ) (a : Address) (w u : env.io.World)
      → failures < attempts
      → FoundAfter failures a w u
      → resolve_server env attempts true domain w ≡ (ok (some a), u)
  unfolding resolve_server on_resolved
  resolve_server-retry failures zero a w u lt found = absurd (omega arith)
  resolve_server-retry zero (suc attempts) a w u lt found = rw found refl
  resolve_server-retry (suc failures) (suc attempts) a w u lt (v, failed, found) =
      rw failed (resolve_server-retry failures attempts a v u (omega arith) found)

module _ {I : Type 0} (env : Environment) (str : Streams env.io) (client : ClientFunctions I)
    (connfd : ℕ) where
  open str use {incoming, outgoing, writable}

  -- The authentication: the module's query goes out as one pack and one pack comes in, which the
  -- module judges, if neither is longer than 64 MiB.
  pub do_auth_lem :
      (query : BinarySafeString) (reply rest : Bytes) (s : Channel env.io.World I)
      (c : ConnectInfo I)
      → make_auth_query client s.conn ≡ (ok query, c)
      → length query.str ≤ max_packet
      → length reply ≤ max_packet
      → writable s.world connfd ≡ true
      → incoming s.world connfd ≡ frame reply ++ rest
      → (w : env.io.World) × (do_auth env client connfd s
          ≡ (let (r, c') = on_auth_reply client reply c in (r, record { world = w; conn = c' })))
        × (outgoing w connfd ≡ outgoing s.world connfd ++ frame query.str)
        × (incoming w connfd ≡ rest)
        × (writable w connfd ≡ writable s.world connfd)
        × ((g : ℕ) → connfd ≢ g → Same env.io str g s.world w)
  unfolding do_auth
  do_auth_lem query reply rest s c asks short short' open_w e =
      let (t, z) = send_pack_lem env str connfd query.str s.world open_w in
      let u = after_send env.io str connfd query.str s.world in
      let (h, h', p) = recv_pack_lem env str connfd reply rest u (z.unread ∙ e) (omega arith) in
      (
        after_recv env.io str connfd reply u,
        rw
            (
              asks,
              le→leb _ _ short,
              t,
              h,
              ntohl-htonl (length reply) (omega arith),
              le→leb _ _ short',
              h',
            )
            refl,
        p.sent ∙ z.sent,
        p.unread,
        p.still_open ∙ z.still_open,
        λ g ne.
            Same-trans env.io str g s.world u (after_recv env.io str connfd reply u)
              (after_send-Same env.io str connfd g query.str s.world ne)
              (after_recv-Same env.io str connfd g reply u ne),
      )
