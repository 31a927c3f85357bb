-- ===== src/Tunnel/Simple.antt =====
-- The module src/modules/simple_proxy/simple_proxy.c as one whose two halves fit each other: its ends
-- are linked as soon as they have the same passphrase.
use snakesocks.Base.{refl, [], ◌∷◌, ◌+◌, ◌≤◌, ◌≡◌, sym, ◌∙◌, length, arith}
use snakesocks.Io.{Bytes, ok}
use snakesocks.Module.{ClientQuery, ConnectInfo, IsQuery, as_read, received}
use snakesocks.NetLib.{max_packet}
use snakesocks.SimpleProxy.{first_byte, Memory, client, server, encode, decode}
use snakesocks.SimpleProxy.Struct.{IsMemory}
use snakesocks.SimpleProxy.Codec.{decode-encode}
use snakesocks.Tunnel.{ModuleLaws}
use snakesocks.Tunnel.Login.{LoginLaws, Exchange}
use snakesocks.Tunnel.Pipeline.{IsCodec, PipelineLaws, same_packet}

module _ (mem : Memory) (m : IsMemory mem) where
  abbrev SameKey : ConnectInfo (Unit {0}) → ConnectInfo (Unit {0}) → Type 0
  SameKey c s = s.passphrase.str ≡ c.passphrase.str

  pub simple_codec-client :
      (c s : ConnectInfo (Unit {0})) (q : ClientQuery)
      → SameKey c s
      → IsQuery q
      → length q.payload.str + 27 ≤ max_packet
      → (packet : Bytes) × (c' : ConnectInfo (Unit {0})) × (s' : ConnectInfo (Unit {0})) × (encode
            mem c q
          ≡ (ok (received packet), c'))
        × (decode mem s (received packet) ≡ (ok (as_read q), s'))
        × SameKey c' s'
        × (1 ≤ length packet)
        × (length packet ≤ length q.payload.str + 27)
  simple_codec-client c s q link h fits =
      let (packet, e, d, n) = decode-encode mem c s q link m h (omega arith) in
      (packet, c, s, e, d, link, omega arith, omega arith)

  pub simple_codec-server :
      (c s : ConnectInfo (Unit {0})) (q : ClientQuery)
      → SameKey c s
      → IsQuery q
      → length q.payload.str + 27 ≤ max_packet
      → (packet : Bytes) × (c' : ConnectInfo (Unit {0})) × (s' : ConnectInfo (Unit {0})) × (encode
            mem s q
          ≡ (ok (received packet), s'))
        × (decode mem c (received packet) ≡ (ok (as_read q), c'))
        × SameKey c' s'
        × (1 ≤ length packet)
        × (length packet ≤ length q.payload.str + 27)
  simple_codec-server c s q link h fits =
      let (packet, e, d, n) = decode-encode mem s c q (sym link) m h (omega arith) in
      (packet, c, s, e, d, link, omega arith, omega arith)

  abbrev pub simple_laws : ModuleLaws (client mem) (server mem)
  simple_laws = record {
    Link = SameKey;
    overhead = 27;
    client_codec = simple_codec-client;
    server_codec = simple_codec-server;
  }

  pub simple-Exchange :
      (c s : ConnectInfo (Unit {0}))
      → s.passphrase.str ≡ c.passphrase.str
      → length c.passphrase.str ≤ max_packet
      → Exchange (client mem) (server mem) SameKey c s
  unfolding first_byte
  simple-Exchange c s same short =
      (c.passphrase.str, 1 ∷ [], c, c, s, refl, refl, refl, same, short, omega arith)

  abbrev pub simple_login : LoginLaws (client mem) (server mem) simple_laws
  simple_login = record { exchange = simple-Exchange }

  module _ (key : Bytes) where
    abbrev HasKey : ConnectInfo (Unit {0}) → Type 0
    HasKey c = c.passphrase.str ≡ key

    pub simple_codec : IsCodec (encode mem) (decode mem) HasKey HasKey 27
    simple_codec c q k h fits =
        let (packet, e, _, n) = decode-encode mem c c q refl m h (omega arith) in
        (
          packet,
          c,
          e,
          k,
          omega arith,
          omega arith,
          λ d k'.
              let (other, e', dec, _) = decode-encode mem c d q (k' ∙ sym k) m h (omega arith) in
              (d, rw (same_packet (encode mem c q) packet other c c e e') dec, k'),
        )

    -- Ends with one passphrase can also have several packets on their way.
    abbrev pub simple_pipeline : PipelineLaws (client mem) (server mem)
    simple_pipeline = record {
      Client = HasKey;
      Server = HasKey;
      overhead = 27;
      client_codec = simple_codec;
      server_codec = simple_codec;
    }

    -- Ends with that passphrase accept each other, and go on from there.
    pub simple_meeting :
        (c s : ConnectInfo (Unit {0}))
        → c.passphrase.str ≡ key
        → s.passphrase.str ≡ key
        → length key ≤ max_packet
        → Exchange (client mem) (server mem) (λ c' s'. HasKey c' × HasKey s') c s
    unfolding first_byte
    simple_meeting c s kc ks short = (
      c.passphrase.str,
      1 ∷ [],
      c,
      c,
      s,
      refl,
      ground (arith, kc, ks),
      refl,
      (kc, ks),
      rw kc short,
      omega arith,
    )
