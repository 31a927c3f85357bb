-- ===== src/Tunnel/Conversation/Wire.antt =====
-- The bytes between the two ends of the tunnel of src/native/src/socks5.cc and tunnel.cc, as packets that
-- each stand for a payload.
use snakesocks.Base.{
  ◌+◌, ◌≤◌, ◌≡◌, refl, ap, sym, ◌∙◌, take, arith, length-append, List, [], ◌∷◌, ◌++◌, length,
  append-nil, append_assoc,
}
use snakesocks.Io.{Bytes}
use snakesocks.NetLib.{max_packet}
use snakesocks.NetLib.{ntohl, htonl}
use snakesocks.NetLib.Frames.{frame, ntohl-htonl, take-htonl, length-htonl}

-- A length in network order has arrived, and as many bytes behind it.
abbrev pub IsWhole : Bytes → Type 0
IsWhole bytes = 4 + ntohl (take 4 bytes) ≤ length bytes

prefix_of :
    (front xs ys rest : Bytes)
    → length front ≤ length xs
    → xs ++ ys ≡ front ++ rest
    → (left : Bytes) × (xs ≡ front ++ left) × (left ++ ys ≡ rest)
prefix_of [] xs ys rest h e = (xs, refl, e)
prefix_of (b ∷ front) [] ys rest h e = absurd (omega arith)
prefix_of (b ∷ front) (x ∷ xs) ys rest h e =
    let same : x ≡ b = cc in
    let (left, e', f) = prefix_of front xs ys rest (omega arith) (cc) in
    (left, λ i. same i ∷ e' i, f)

-- The frame that a whole packet begins with is the first of what was sent.
frame-prefix :
    (packet xs ys rest : Bytes)
    → length packet ≤ max_packet
    → IsWhole xs
    → xs ++ ys ≡ frame packet ++ rest
    → (left : Bytes) × (xs ≡ frame packet ++ left) × (left ++ ys ≡ rest)
frame-prefix packet xs ys rest fits whole e =
    let n = htonl (length packet) in
    let (body, starts, _) =
      prefix_of n xs ys (packet ++ rest) (omega (arith, length-htonl (length packet)))
        (e ∙ append_assoc n packet rest) in
    let says : ntohl (take 4 xs) ≡ length packet =
      rw (starts, take-htonl (length packet) body) (ntohl-htonl (length packet) (omega arith)) in
    prefix_of (frame packet) xs ys rest
      (omega (arith, says, length-append n packet, length-htonl (length packet))) e

-- A frame has arrived when all of it has.
pub IsWhole-frame :
    (packet rest : Bytes) → length packet ≤ max_packet → IsWhole (frame packet ++ rest)
IsWhole-frame packet rest fits =
    let n = htonl (length packet) in
    rw (append_assoc n packet rest, take-htonl (length packet) (packet ++ rest))
      (omega (
        arith,
        ntohl-htonl (length packet) (omega arith),
        length-htonl (length packet),
        length-append n (packet ++ rest),
        length-append packet rest,
      ))

module _ (Packs : Bytes → Bytes → Type 0) where
  -- The bytes are the packets for these payloads, and nothing else.
  abbrev pub Wire : Bytes → List Bytes → Type 0
  Wire bytes [] = bytes ≡ []
  Wire bytes (payload ∷ later) =
      (packet : Bytes) × (rest : Bytes) × (bytes ≡ frame packet ++ rest)
      × Packs packet payload
      × (1 ≤ length packet)
      × (length packet ≤ max_packet)
      × Wire rest later

  pub Wire-append :
      (payloads : List Bytes) (bytes packet payload : Bytes)
      → Packs packet payload
      → 1 ≤ length packet
      → length packet ≤ max_packet
      → Wire bytes payloads
      → Wire (bytes ++ frame packet) (payloads ++ (payload ∷ []))
  Wire-append [] bytes packet payload p full fits none_left =
      (packet, [], rw none_left (sym (append-nil (frame packet))), p, full, fits, refl)
  Wire-append (x ∷ later) bytes packet payload p full fits
        (first, rest, e, p', full', fits', wire) =
      (
        first,
        rest ++ frame packet,
        rw e (append_assoc (frame first) rest (frame packet)),
        p',
        full',
        fits',
        Wire-append later rest packet payload p full fits wire,
      )

  -- A whole packet that has arrived is the first of those on the wire.
  pub Wire-IsWhole :
      (payloads : List Bytes) (xs ys : Bytes)
      → IsWhole xs
      → Wire (xs ++ ys) payloads
      → (payload : Bytes) × (later : List Bytes) × (packet : Bytes) × (rest : Bytes) × (payloads
          ≡ payload ∷ later)
        × (xs ≡ frame packet ++ rest)
        × Packs packet payload
        × (1 ≤ length packet)
        × (length packet ≤ max_packet)
        × Wire (rest ++ ys) later
  Wire-IsWhole [] xs ys whole none_left =
      absurd (omega (arith, length-append xs ys, ap length none_left))
  Wire-IsWhole (payload ∷ later) xs ys whole (packet, rest, e, p, full, fits, wire) =
      let (left, e', f) = frame-prefix packet xs ys rest fits whole e in
      (payload, later, packet, left, refl, e', p, full, fits, rw f wire)
