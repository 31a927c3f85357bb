-- ===== src/Relay/Packs.antt =====
-- What the client of src/native/src/socks5.cc does with one piece of data, or with one domain, over
-- the laws of stream sockets.
use snakesocks.Base.{
  ℕ, ◌<◌, ◌^◌, ◌≡◌, ◌≢◌, refl, sym, ◌∙◌, true, some, ◌++◌, length, ◌==◌, if◌then◌else◌, arith,
  ==_refl, ==_ne,
}
use snakesocks.Io.{running, closed, Bytes, ok, Streams}
use snakesocks.Module.{
  BinarySafeString, ClientQuery, ConnectInfo, ClientFunctions, received, encode, decode,
}
use snakesocks.NetLib.{assemble_dns_query}
use snakesocks.NetLib.Frames.{
  frame, Sent, Same, ntohl-htonl, after_send, after_send-Same, after_recv, after_recv-Same,
}
use snakesocks.Environment.{Environment}
use snakesocks.Addr.{set_domain, make_dns_query_body}
use snakesocks.Outbound.{Channel}
use snakesocks.Relay.{resolved, dns_pkgs, on_local_data, on_remote_data}
use snakesocks.Outbound.Frames.{send_pack_lem, recv_pack_lem}

module _ {I : Type 0} (env : Environment) (str : Streams env.io) (client : ClientFunctions I)
    (m_fd connfd : ℕ) where
  open str use {incoming, outgoing, writable, emit}

  -- A payload that is not empty takes the place of the template's.
  pub encode-payload :
      (bytes : Bytes) (template : ClientQuery) (conn : ConnectInfo I)
      → 0 < length bytes
      → encode client (received bytes) template conn
        ≡ client.client_encode conn (record template { payload = received bytes })
  unfolding encode
  encode-payload bytes template conn h = ground arith

  -- What is read from this hop goes over the tunnel, if that is open, as one pack, the data encoded under the
  -- template; when nothing is left to read, the loop ends and nothing is sent.
  pub on_local_data_lem :
      (bytes : Bytes) (template : ClientQuery) (s : Channel env.io.World I) (c : ConnectInfo I)
      (encoded : BinarySafeString) (u : env.io.World)
      → env.readall m_fd s.world ≡ (ok (some bytes), u)
      → encode client (received bytes) template s.conn ≡ (ok encoded, c)
      → writable u connfd ≡ true
      → (w : env.io.World) × (on_local_data env client m_fd connfd template s ≡ (
          if length bytes == 0
          then (ok closed, record s { world = u })
          else (ok running, record { world = w; conn = c })))
        × Sent env.io str connfd (frame encoded.str) u w
        × ((g : ℕ) → connfd ≢ g → Same env.io str g u w)
  unfolding on_local_data
  on_local_data_lem bytes template s c encoded u got enc open_w =
      let (t, z) = send_pack_lem env str connfd encoded.str u open_w in
      (
        after_send env.io str connfd encoded.str u,
        ground (arith, got, enc, t),
        z,
        λ g ne. after_send-Same env.io str connfd g encoded.str u ne,
      )

  -- A pack that is not empty and below 4 GiB: the payload that is decoded from it goes to this hop, if
  -- that is open, and nothing else does; what follows the pack stays in the stream.
  pub on_remote_data_lem :
      (pack rest : Bytes) (s : Channel env.io.World I) (q : ClientQuery) (c : ConnectInfo I)
      → connfd ≢ m_fd
      → incoming s.world connfd ≡ frame pack ++ rest
      → 0 < length pack
      → length pack < 2 ^ 32
      → decode client (received pack) s.conn ≡ (ok q, c)
      → writable s.world m_fd ≡ true
      → (w : env.io.World) × (on_remote_data env client m_fd connfd s
          ≡ (ok running, record { world = w; conn = c }))
        × (outgoing w m_fd ≡ outgoing s.world m_fd ++ q.payload.str)
        × (incoming w connfd ≡ rest)
        × (outgoing w connfd ≡ outgoing s.world connfd)
        × (writable w connfd ≡ writable s.world connfd)
        × (writable w m_fd ≡ writable s.world m_fd)
  unfolding on_remote_data
  on_remote_data_lem pack rest s q c ne e some_bytes fits dec open_w =
      let (h, h', p) = recv_pack_lem env str connfd pack rest s.world e fits in
      let v = after_recv env.io str connfd pack s.world in
      let other = after_recv-Same env.io str connfd m_fd pack s.world ne in
      let sent = str.sendn_all m_fd q.payload.str v (other.still_open ∙ open_w) in
      (
        emit m_fd q.payload.str v,
        ground (arith, h, ntohl-htonl (length pack) fits, h', dec, sent),
        str.outgoing-emit m_fd m_fd q.payload.str v ∙ rw (==_refl m_fd, other.sent) refl,
        str.incoming-emit m_fd connfd q.payload.str v ∙ p.unread,
        str.outgoing-emit m_fd connfd q.payload.str v
            ∙ rw (==_ne m_fd connfd (λ e. ne (sym e))) p.sent,
        str.writable-emit m_fd connfd q.payload.str v ∙ p.still_open,
        str.writable-emit m_fd m_fd q.payload.str v ∙ other.still_open,
      )

  -- The payload of a DNS query is never empty, so that it is the template's own.
  encode-dns :
      (name : Bytes) (port : ℕ) (conn : ConnectInfo I)
      → let pkg = make_dns_query_body (set_domain name port) in
        encode client pkg.payload pkg conn ≡ client.client_encode conn pkg
  unfolding encode make_dns_query_body assemble_dns_query
  encode-dns name port conn = ground arith

  -- The dialogue for a domain over an open tunnel: one pack out, with the query for it, one pack in, and the address in
  -- that.
  pub dns_pkgs_lem :
      (name : Bytes) (port : ℕ) (pack rest : Bytes) (s : Channel env.io.World I)
      (encoded : BinarySafeString) (c c' : ConnectInfo I) (response : ClientQuery)
      → client.client_encode s.conn (make_dns_query_body (set_domain name port)) ≡ (ok encoded, c)
      → writable s.world connfd ≡ true
      → incoming s.world connfd ≡ frame pack ++ rest
      → length pack < 2 ^ 32
      → decode client (received pack) c ≡ (ok response, c')
      → (w : env.io.World) × (dns_pkgs env client m_fd connfd (set_domain name port) s
          ≡ (resolved port response, record { world = w; conn = c' }))
        × (outgoing w connfd ≡ outgoing s.world connfd ++ frame encoded.str)
        × (incoming w connfd ≡ rest)
  unfolding dns_pkgs set_domain
  dns_pkgs_lem name port pack rest s encoded c c' response enc open_w e fits dec =
      let (t, z) = send_pack_lem env str connfd encoded.str s.world open_w in
      let u = after_send env.io str connfd encoded.str s.world in
      let (h, h', p) = recv_pack_lem env str connfd pack rest u (z.unread ∙ e) fits in
      (
        after_recv env.io str connfd pack u,
        ground (
          arith,
          encode-dns name port s.conn,
          enc,
          t,
          h,
          ntohl-htonl (length pack) fits,
          h',
          dec,
        ),
        p.sent ∙ z.sent,
        p.unread,
      )
