-- ===== src/Tunnel/Conversation/Dialling.antt =====
-- What on_client_data of src/native/src/tunnel.cc does with a packet for data, whether or not it is the first one,
-- when the connection that the first one asks for succeeds.
use snakesocks.Base.{
  ℕ, ◌≤◌, ◌≡◌, ◌≢◌, refl, ◌∙◌, ap, true, false, none, ◌⊎◌, inl, inr, some, ◌++◌, length,
}
use snakesocks.Io.{Bytes, ok, Streams}
use snakesocks.Module.{ClientQuery, ConnectInfo, ServerFunctions, received}
use snakesocks.NetLib.{is_dns_query, ip_array_to_str, max_packet}
use snakesocks.NetLib.Frames.{frame, Same, after_recv}
use snakesocks.Environment.{Environment}
use snakesocks.Inbound.{Session, on_client_data}
use snakesocks.Inbound.Forward.{on_client_data-forward, on_client_data-connect}

-- quick_connect succeeds with the descriptor `hop`, whatever host and port it is asked for: the new
-- socket is open, nothing has been sent on it, and the client's is as it was.
pub record Dials (env : Environment) (s : Streams env.io) (connfd hop : ℕ) : Type 0 where
  pub dialled : Bytes → ℕ → env.io.World → env.io.World
  pub connects :
      (host : Bytes) (port : ℕ) (w : env.io.World)
      → env.quick_connect host port w ≡ (ok hop, dialled host port w)
  pub nothing_sent :
      (host : Bytes) (port : ℕ) (w : env.io.World)
      → s.outgoing (dialled host port w) hop ≡ s.outgoing w hop
  pub is_open :
      (host : Bytes) (port : ℕ) (w : env.io.World) → s.writable (dialled host port w) hop ≡ true
  pub spares :
      (host : Bytes) (port : ℕ) (w : env.io.World) → Same env.io s connfd w (dialled host port w)

module _ {I : Type 0} (env : Environment) (str : Streams env.io) (server : ServerFunctions I)
    (bind_port connfd hop : ℕ) (dial : Dials env str connfd hop) where
  open str use {incoming, outgoing, writable}

  -- A data packet of at most 64 MiB, when the next hop is open or there is none yet: there is one afterwards,
  -- and it has been sent the payload.
  pub on_client_data-some :
      (packet rest : Bytes) (s : Session env.io.World I) (q : ClientQuery) (c : ConnectInfo I)
      → (s.next_hop ≡ some hop) ⊎ (s.next_hop ≡ none)
      → (s.next_hop ≡ some hop → writable s.world hop ≡ true)
      → connfd ≢ hop
      → incoming s.world connfd ≡ frame packet ++ rest
      → length packet ≤ max_packet
      → server.server_decode s.conn (received packet) ≡ (ok q, c)
      → is_dns_query q ≡ false
      → (w : env.io.World) × (on_client_data env server bind_port connfd s
          ≡ (ok tt, record { world = w; conn = c; next_hop = some hop }))
        × (outgoing w hop ≡ outgoing s.world hop ++ q.payload.str)
        × (incoming w connfd ≡ rest)
        × (outgoing w connfd ≡ outgoing s.world connfd)
        × (writable w connfd ≡ writable s.world connfd)
        × (writable w hop ≡ true)
  on_client_data-some packet rest s q c (inl has) opened ne e fits dec no_dns =
      let (w, r, out, left, silent, stays, open_hop) =
        on_client_data-forward env str server bind_port connfd hop packet rest s q c has ne e fits
          dec no_dns (opened has) in
      (
        w,
        r ∙ ap (λ n. (ok tt, record { world = w; conn = c; next_hop = n })) has,
        out,
        left,
        silent,
        stays,
        open_hop ∙ opened has,
      )
  on_client_data-some packet rest s q c (inr lacks) opened ne e fits dec no_dns =
      let host = ip_array_to_str q.destination_ip in
      let v = after_recv env.io str connfd packet s.world in
      let same = dial.spares host q.destination_port v in
      let fresh = dial.is_open host q.destination_port v in
      let (w, r, out, open_hop, after, taken, before) =
        on_client_data-connect env str server bind_port connfd hop packet rest s q c
          (dial.dialled host q.destination_port v) lacks ne e fits dec no_dns
          (dial.connects host q.destination_port v) fresh in
      (
        w,
        r,
        out ∙ rw (dial.nothing_sent host q.destination_port v, before.sent) refl,
        after.unread ∙ same.unread ∙ taken.unread,
        after.sent ∙ same.sent ∙ taken.sent,
        after.still_open ∙ same.still_open ∙ taken.still_open,
        open_hop ∙ fresh,
      )
