-- ===== src/Socks5/Connect.antt =====
-- The request that connect_pkgs and unpackConnectionPacket of src/native/src/socks5.cc read and
-- answer. `request` is the packet of RFC 1928, section 4, that names an address.
use snakesocks.Base.{
  ℕ, ◌+◌, ◌-◌, ◌/◌, ◌%◌, ◌^◌, ◌≤◌, ◌<◌, ◌≡◌, refl, sym, ◌∙◌, ap, true, [], ◌∷◌, ◌++◌, arith, length,
  take, All, le→leb, gt→leb, take_all, get_or-append, take-append, length-append, ==_ne,
}
use snakesocks.Io.{Bytes, ok, overrun, SockIo, Streams}
use snakesocks.NetLib.Dns.{IsNonzero}
use snakesocks.NetLib.Frames.{Taken-trans, recvn-Taken, sendn-Sent}
use snakesocks.Addr.{AddrInfo, null, ipv4, ipv6, domain, set_ipv4, set_ipv6, set_domain}
use snakesocks.Socks5.{
  ntohs_at, until_nul, unpack_domain, unpack_connection_packet, address_length, connect_pkgs,
  buf_size,
}
use snakesocks.Socks5.Handshake.{size_of_char_small, size_of_char_large}

until_nul_lem : (s : Bytes) → All IsNonzero s → until_nul s ≡ s
unfolding until_nul
until_nul_lem [] h = refl
until_nul_lem (b ∷ bs) h = rw (==_ne b 0 h.0) (ap (◌∷◌ b) (until_nul_lem bs h.1))

abbrev pub port_bytes : ℕ → Bytes
port_bytes port = (port / 256) ∷ (port % 256) ∷ []

ntohs_at-port :
    (front : Bytes) (i port : ℕ) → i ≡ length front → ntohs_at (front ++ port_bytes port) i ≡ port
unfolding ntohs_at
ntohs_at-port front i port e =
    rw
      (
        get_or-append front (port_bytes port) i 0 0 (omega arith),
        get_or-append front (port_bytes port) (i + 1) 1 0 (omega arith),
      )
      (omega arith)

unpack-ipv4 :
    (r a b c d port : ℕ)
    → unpack_connection_packet (5 ∷ 1 ∷ r ∷ 1 ∷ a ∷ b ∷ c ∷ d ∷ port_bytes port)
      ≡ ok (set_ipv4 (a ∷ b ∷ c ∷ d ∷ []) port)
unfolding unpack_connection_packet
unpack-ipv4 r a b c d port =
    ap (λ p. ok (set_ipv4 (a ∷ b ∷ c ∷ d ∷ []) p))
      (ntohs_at-port (5 ∷ 1 ∷ r ∷ 1 ∷ a ∷ b ∷ c ∷ d ∷ []) 8 port refl)

take-front : (n : ℕ) (xs ys : Bytes) → n ≡ length xs → take n (xs ++ ys) ≡ xs
take-front n xs ys e = rw e (take-append xs ys)

unpack-ipv6 :
    (r a : ℕ) (bs : Bytes) (port : ℕ)
    → length bs ≡ 15
    → unpack_connection_packet (5 ∷ 1 ∷ r ∷ 4 ∷ a ∷ (bs ++ port_bytes port))
      ≡ ok (set_ipv6 (a ∷ bs) port)
unfolding unpack_connection_packet
unpack-ipv6 r a bs port e =
    rw
      (
        take-front 15 bs (port_bytes port) (sym e),
        ntohs_at-port (5 ∷ 1 ∷ r ∷ 4 ∷ a ∷ bs) 20 port (omega arith),
      )
      refl

unpack-domain :
    (r : ℕ) (name : Bytes) (port : ℕ)
    → length name < 128
    → All IsNonzero name
    → unpack_connection_packet (5 ∷ 1 ∷ r ∷ 3 ∷ length name ∷ (name ++ port_bytes port))
      ≡ ok (set_domain name port)
unfolding unpack_connection_packet unpack_domain
unpack-domain r name port small h =
    rw
      (
        size_of_char_small (length name) small,
        le→leb (5 + length name + 2) buf_size (omega arith),
        take-append name (port_bytes port),
        until_nul_lem name h,
        ntohs_at-port (5 ∷ 1 ∷ r ∷ 3 ∷ length name ∷ name) (5 + length name) port (omega arith),
      )
      refl

-- The address part of a request: type, address and port.
abbrev pub address_part : AddrInfo → Bytes
address_part a = elim a.type [
  | null ↦ []
  | ipv4 ↦ 1 ∷ (a.bytes ++ port_bytes a.port)
  | ipv6 ↦ 4 ∷ (a.bytes ++ port_bytes a.port)
  | domain ↦ 3 ∷ length a.bytes ∷ (a.bytes ++ port_bytes a.port)
]

-- A request for `a`, or with status 0 in place of the command the reply that it was granted.
abbrev pub packet : ℕ → ℕ → AddrInfo → Bytes
packet cmd reserved a = 5 ∷ cmd ∷ reserved ∷ address_part a

-- An address as a client writes it: 4 or 16 bytes, or a domain of at most 127 characters.
pub data IsWritten : AddrInfo → Type 0 where
  four : (a b c d port : ℕ) → IsWritten (set_ipv4 (a ∷ b ∷ c ∷ d ∷ []) port)
  sixteen : (a : ℕ) (bs : Bytes) (port : ℕ) → length bs ≡ 15 → IsWritten (set_ipv6 (a ∷ bs) port)
  named :
      (name : Bytes) (port : ℕ)
      → length name < 128
      → All IsNonzero name
      → IsWritten (set_domain name port)

module _ (io : SockIo) (s : Streams io) (fd : ℕ) where
  open s use {incoming, outgoing, writable, consume, emit}

  -- One run, from what its pure steps give.
  connect_pkgs-parts :
      (r t x n : ℕ) (tail rest : Bytes) (a : AddrInfo) (w : io.World)
      → address_length (5 ∷ 1 ∷ r ∷ t ∷ x ∷ []) ≡ ok n
      → length tail ≡ n + 1
      → n < 250
      → unpack_connection_packet (5 ∷ 1 ∷ r ∷ t ∷ x ∷ tail) ≡ ok a
      → incoming w fd ≡ 5 ∷ 1 ∷ r ∷ t ∷ x ∷ (tail ++ rest)
      → writable w fd ≡ true
      → (w' : io.World) × (connect_pkgs io fd w ≡ (ok a, w'))
        × (incoming w' fd ≡ rest)
        × (outgoing w' fd ≡ outgoing w fd ++ (5 ∷ 0 ∷ r ∷ t ∷ x ∷ tail))
  unfolding connect_pkgs
  connect_pkgs-parts r t x n tail rest a w len e small unpacked stream open_w =
      let v = consume fd 5 w in
      let u = consume fd (length tail) v in
      let reply = 5 ∷ 0 ∷ r ∷ t ∷ x ∷ tail in
      let (g, p) = recvn-Taken io s fd (5 ∷ 1 ∷ r ∷ t ∷ x ∷ []) (tail ++ rest) w stream in
      let (g', p') = recvn-Taken io s fd tail rest v p.unread in
      let q = Taken-trans io s fd (tail ++ rest) rest w v u p p' in
      let (h, z) = sendn-Sent io s fd reply u (q.still_open ∙ open_w) in
      let wide : (n + 1) % 2 ^ 64 ≡ length tail = omega arith in
      (
        emit fd reply u,
        rw
            (
              g,
              len,
              wide,
              le→leb (length tail) (buf_size - 5) (omega arith),
              g',
              unpacked,
              take_all (n + 6) reply (omega arith),
              h,
            )
            refl,
        z.unread ∙ q.unread,
        z.sent ∙ ap (λ o. o ++ reply) q.sent,
      )

  -- A request with command 1 for an IPv4 address, for an IPv6 address, or for a domain of at most 127
  -- characters, none of them zero, on an open socket, yields that address; the answer is the request with status 0 for the command, and what follows the request stays in
  -- the stream.
  pub connect_pkgs_lem :
      (a : AddrInfo) (r : ℕ) (rest : Bytes) (w : io.World)
      → IsWritten a
      → incoming w fd ≡ packet 1 r a ++ rest
      → writable w fd ≡ true
      → (w' : io.World) × (connect_pkgs io fd w ≡ (ok a, w'))
        × (incoming w' fd ≡ rest)
        × (outgoing w' fd ≡ outgoing w fd ++ packet 0 r a)
  unfolding address_length set_ipv4 set_ipv6 set_domain
  connect_pkgs_lem a r rest w (four x b c d port) e open_w =
      connect_pkgs-parts r 1 x 4 (b ∷ c ∷ d ∷ port_bytes port) rest a w refl refl (omega arith)
        (unpack-ipv4 r x b c d port) e open_w
  connect_pkgs_lem a r rest w (sixteen x bs port l) e open_w =
      connect_pkgs-parts r 4 x 16 (bs ++ port_bytes port) rest a w refl
        (omega (arith, length-append bs (port_bytes port))) (omega arith)
        (unpack-ipv6 r x bs port l) e open_w
  connect_pkgs_lem a r rest w (named name port small h) e open_w =
      connect_pkgs-parts r 3 (length name) (length name + 1) (name ++ port_bytes port) rest a w
        (rw (size_of_char_small (length name) small) (ap ok (omega arith)))
        (omega (arith, length-append name (port_bytes port))) (omega arith)
        (unpack-domain r name port small h) e open_w

  -- For a domain of 128 to 253 characters, which the format allows, the receive is longer than the
  -- buffer.
  pub connect_pkgs-overrun :
      (cmd r n : ℕ) (rest : Bytes) (w : io.World)
      → incoming w fd ≡ 5 ∷ cmd ∷ r ∷ 3 ∷ n ∷ rest
      → 128 ≤ n
      → n < 254
      → (connect_pkgs io fd w).0 ≡ overrun
  unfolding connect_pkgs address_length
  connect_pkgs-overrun cmd r n rest w e large byte =
      let (g, p) = recvn-Taken io s fd (5 ∷ cmd ∷ r ∷ 3 ∷ n ∷ []) rest w e in
      let wanted : ℕ = ((n + (2 ^ 64 - 256) + 1) % 2 ^ 64 + 1) % 2 ^ 64 in
      rw (g, size_of_char_large n large, gt→leb wanted (buf_size - 5) (omega arith)) refl
