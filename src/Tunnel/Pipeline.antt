-- ===== src/Tunnel/Pipeline.antt =====
-- What a module promises when packets are on their way in both directions at once: a packet that one end of
-- src/native/src/socks5.cc and tunnel.cc has encoded is decoded later, when both ends have gone on.
use snakesocks.Base.{ℕ, ◌+◌, ◌≤◌, ◌≡◌, length, ap, sym, ◌∙◌}
use snakesocks.Io.{Bytes, Result, ok}
use snakesocks.Module.{
  BinarySafeString, ClientQuery, ConnectInfo, ClientFunctions, ServerFunctions, IsQuery, as_read,
  received,
}
use snakesocks.NetLib.{max_packet}
use snakesocks.Tunnel.{bytes_of}

module _ {I : Type 0}
    (encode : ConnectInfo I → ClientQuery → Result BinarySafeString × ConnectInfo I)
    (decode : ConnectInfo I → BinarySafeString → Result ClientQuery × ConnectInfo I)
    (Encodes Decodes : ConnectInfo I → Type 0) (overhead : ℕ) where
  -- Who can decode gets the query from the packet, and can still decode.
  abbrev pub Reads : Bytes → ClientQuery → Type 0
  Reads packet q =
      (d : ConnectInfo I)
      → Decodes d
      → (d' : ConnectInfo I) × (decode d (received packet) ≡ (ok (as_read q), d')) × Decodes d'

  -- Every query that fits becomes a packet that is not empty, is longer than the payload by `overhead` at
  -- most, and can be read whenever it arrives.
  abbrev pub IsCodec : Type 0
  IsCodec =
      (c : ConnectInfo I) (q : ClientQuery)
      → Encodes c
      → IsQuery q
      → length q.payload.str + overhead ≤ max_packet
      → (packet : Bytes) × (c' : ConnectInfo I) × (encode c q ≡ (ok (received packet), c'))
        × Encodes c'
        × (1 ≤ length packet)
        × (length packet ≤ length q.payload.str + overhead)
        × Reads packet q

-- `Client` and `Server` hold of the two ends of one connection once they have authenticated.
pub record PipelineLaws {I : Type 0} (client : ClientFunctions I) (server : ServerFunctions I)
    : Type 1 where
  pub Client : ConnectInfo I → Type 0
  pub Server : ConnectInfo I → Type 0
  pub overhead : ℕ
  pub client_codec : IsCodec client.client_encode server.server_decode Client Server overhead
  pub server_codec : IsCodec server.server_encode client.client_decode Server Client overhead

-- A module encodes a query to one packet.
pub same_packet :
    {C : Type 0} (r : Result BinarySafeString × C) (p p' : Bytes) (c c' : C)
    → r ≡ (ok (received p), c)
    → r ≡ (ok (received p'), c')
    → p ≡ p'
same_packet r p p' c c' e e' = ap bytes_of (sym e ∙ e')
