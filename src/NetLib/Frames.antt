-- ===== src/NetLib/Frames.antt =====
-- The packets with a length in front of send_length_and_packet and recv_length_and_packet, in
-- src/native/src/lib/NetLib.hpp, over the laws of a stream socket.
use snakesocks.Base.{
  ==_ne, ◌≢◌, ℕ, ◌≤◌, ◌<◌, ◌^◌, ◌≡◌, refl, true, ◌++◌, arith, length, take, drop, le→leb, gt→leb,
  take-append, drop-append, length-append, ==_refl, append_assoc, ◌∙◌,
}
use snakesocks.Io.{Bytes, ok, thrown, refuse_to_send, refuse_to_recv, SockIo, Streams}
use snakesocks.NetLib.{htonl, ntohl, max_packet, send_length_and_packet, recv_length_and_packet}

-- Every uint32_t survives the change to network order and back.
pub ntohl-htonl : (n : ℕ) → n < 2 ^ 32 → ntohl (htonl n) ≡ n
unfolding ntohl htonl
ntohl-htonl n h = omega arith

-- A packet as it goes over the wire.
abbrev pub frame : Bytes → Bytes
frame packet = htonl (length packet) ++ packet

pub take-htonl : (n : ℕ) (rest : Bytes) → take 4 (htonl n ++ rest) ≡ htonl n
unfolding htonl
take-htonl n rest = refl

pub drop-htonl : (n : ℕ) (rest : Bytes) → drop 4 (htonl n ++ rest) ≡ rest
unfolding htonl
drop-htonl n rest = refl

pub length-htonl : (n : ℕ) → length (htonl n) ≡ 4
unfolding htonl
length-htonl n = refl

module _ (io : SockIo) (s : Streams io) (fd : ℕ) where
  open s use {incoming, outgoing, writable, consume, emit}

  -- `bs` went behind what was sent before, and nothing else of the socket changed.
  pub record Sent (bs : Bytes) (w w' : io.World) : Type 0 where
    pub sent : outgoing w' fd ≡ outgoing w fd ++ bs
    pub unread : incoming w' fd ≡ incoming w fd
    pub still_open : writable w' fd ≡ writable w fd

  -- `rest` is still to be read, and nothing was sent.
  pub record Taken (rest : Bytes) (w w' : io.World) : Type 0 where
    pub unread : incoming w' fd ≡ rest
    pub sent : outgoing w' fd ≡ outgoing w fd
    pub still_open : writable w' fd ≡ writable w fd

  pub recvn-Taken :
      (front rest : Bytes) (w : io.World)
      → incoming w fd ≡ front ++ rest
      → (io.recvn fd (length front) w ≡ (ok front, consume fd (length front) w))
        × Taken rest w (consume fd (length front) w)
  recvn-Taken front rest w e = (
    s.recvn_all fd (length front) w (rw (e, length-append front rest) (omega arith))
        ∙ rw (e, take-append front rest) refl,
    record {
      unread =
          s.incoming-consume fd (length front) fd w ∙ rw (==_refl fd, e) (drop-append front rest);
      sent = s.outgoing-consume fd (length front) fd w;
      still_open = s.writable-consume fd (length front) fd w;
    },
  )

  pub sendn-Sent :
      (bs : Bytes) (w : io.World)
      → writable w fd ≡ true
      → (io.sendn fd bs w ≡ (ok tt, emit fd bs w)) × Sent bs w (emit fd bs w)
  sendn-Sent bs w h = (
    s.sendn_all fd bs w h,
    record {
      sent = s.outgoing-emit fd fd bs w ∙ rw (==_refl fd) refl;
      unread = s.incoming-emit fd fd bs w;
      still_open = s.writable-emit fd fd bs w;
    },
  )

  pub Sent-trans :
      (xs ys : Bytes) (u v w : io.World) → Sent xs u v → Sent ys v w → Sent (xs ++ ys) u w
  Sent-trans xs ys u v w p q = record {
    sent = q.sent ∙ rw p.sent (append_assoc (outgoing u fd) xs ys);
    unread = q.unread ∙ p.unread;
    still_open = q.still_open ∙ p.still_open;
  }

  pub Taken-trans : (xs ys : Bytes) (u v w : io.World) → Taken xs u v → Taken ys v w → Taken ys u w
  Taken-trans xs ys u v w p q = record {
    unread = q.unread;
    sent = q.sent ∙ p.sent;
    still_open = q.still_open ∙ p.still_open;
  }

  -- The world after a packet is sent, and after one is received.
  abbrev pub after_send : Bytes → io.World → io.World
  after_send packet w = emit fd packet (emit fd (htonl (length packet)) w)

  abbrev pub after_recv : Bytes → io.World → io.World
  after_recv packet w = consume fd (length packet) (consume fd 4 w)

  -- On an open socket, a packet of at most 64 MiB goes out as its length in network order, in four
  -- bytes, with the packet behind it; nothing is read.
  pub send_length_and_packet_lem :
      (packet : Bytes) (w : io.World)
      → writable w fd ≡ true
      → length packet ≤ max_packet
      → (send_length_and_packet io fd packet w ≡ (ok tt, after_send packet w))
        × Sent (frame packet) w (after_send packet w)
  unfolding send_length_and_packet
  send_length_and_packet_lem packet w h fits =
      let n = htonl (length packet) in
      let (e, p) = sendn-Sent n w h in
      let (e', p') = sendn-Sent packet (emit fd n w) (p.still_open ∙ h) in
      (rw (le→leb _ _ fits, e) e', Sent-trans n packet w (emit fd n w) (after_send packet w) p p')

  -- A packet of at most 64 MiB, framed so, at the front of the stream is received whole, and what
  -- comes behind it stays in the stream.
  pub recv_length_and_packet_lem :
      (packet rest : Bytes) (w : io.World)
      → incoming w fd ≡ frame packet ++ rest
      → length packet ≤ max_packet
      → (recv_length_and_packet io fd w ≡ (ok packet, after_recv packet w))
        × Taken rest w (after_recv packet w)
  unfolding recv_length_and_packet htonl
  recv_length_and_packet_lem packet rest w e fits =
      let n = htonl (length packet) in
      let v = consume fd 4 w in
      let (h, p) = recvn-Taken n (packet ++ rest) w (e ∙ append_assoc n packet rest) in
      let (h', p') = recvn-Taken packet rest v p.unread in
      (
        rw (h, ntohl-htonl (length packet) (omega arith), le→leb _ _ fits) h',
        Taken-trans (packet ++ rest) rest w v (after_recv packet w) p p',
      )

  -- A longer packet is refused before a byte goes out.
  pub send_length_and_packet-thrown :
      (packet : Bytes) (w : io.World)
      → max_packet < length packet
      → send_length_and_packet io fd packet w ≡ (thrown refuse_to_send, w)
  unfolding send_length_and_packet
  send_length_and_packet-thrown packet w long = rw (gt→leb _ _ long) refl

  -- A length above 64 MiB is refused once it is read, and what follows it stays in the stream.
  pub recv_length_and_packet-thrown :
      (n : ℕ) (rest : Bytes) (w : io.World)
      → max_packet < n
      → n < 2 ^ 32
      → incoming w fd ≡ htonl n ++ rest
      → (w' : io.World) × (recv_length_and_packet io fd w ≡ (thrown refuse_to_recv, w'))
        × Taken rest w w'
  unfolding recv_length_and_packet htonl
  recv_length_and_packet-thrown n rest w big h e =
      let (r, p) = recvn-Taken (htonl n) rest w e in
      (consume fd 4 w, rw (r, ntohl-htonl n h, gt→leb _ _ big) refl, p)

module _ (io : SockIo) (s : Streams io) where
  open s use {incoming, outgoing, writable}

  -- One socket is as it was.
  pub record Same (g : ℕ) (u w : io.World) : Type 0 where
    pub unread : incoming w g ≡ incoming u g
    pub sent : outgoing w g ≡ outgoing u g
    pub still_open : writable w g ≡ writable u g

  pub emit-Same : (fd g : ℕ) (bs : Bytes) (w : io.World) → fd ≢ g → Same g w (s.emit fd bs w)
  emit-Same fd g bs w ne = record {
    unread = s.incoming-emit fd g bs w;
    sent = s.outgoing-emit fd g bs w ∙ rw (==_ne fd g ne) refl;
    still_open = s.writable-emit fd g bs w;
  }

  pub consume-Same : (fd g n : ℕ) (w : io.World) → fd ≢ g → Same g w (s.consume fd n w)
  consume-Same fd g n w ne = record {
    unread = s.incoming-consume fd n g w ∙ rw (==_ne fd g ne) refl;
    sent = s.outgoing-consume fd n g w;
    still_open = s.writable-consume fd n g w;
  }

  pub Same-trans : (g : ℕ) (u v w : io.World) → Same g u v → Same g v w → Same g u w
  Same-trans g u v w p q = record {
    unread = q.unread ∙ p.unread;
    sent = q.sent ∙ p.sent;
    still_open = q.still_open ∙ p.still_open;
  }

  -- A packet that is sent or received on one socket leaves every other as it was.
  pub after_send-Same :
      (fd g : ℕ) (packet : Bytes) (w : io.World) → fd ≢ g → Same g w (after_send io s fd packet w)
  after_send-Same fd g packet w ne =
      let n = htonl (length packet) in
      Same-trans g w (s.emit fd n w) (after_send io s fd packet w) (emit-Same fd g n w ne)
        (emit-Same fd g packet (s.emit fd n w) ne)

  pub after_recv-Same :
      (fd g : ℕ) (packet : Bytes) (w : io.World) → fd ≢ g → Same g w (after_recv io s fd packet w)
  after_recv-Same fd g packet w ne =
      Same-trans g w (s.consume fd 4 w) (after_recv io s fd packet w) (consume-Same fd g 4 w ne)
        (consume-Same fd g (length packet) (s.consume fd 4 w) ne)
