-- ===== src/Tunnel/Secure.antt =====
-- The module src/modules/se_proxy/se_proxy.c as one whose two halves fit each other: its ends are linked
-- as soon as both hold the same key.
use snakesocks.Base.{ap, refl, ◌∷◌, ◌+◌, ◌≤◌, ◌≡◌, ℕ, some, length, arith}
use snakesocks.Io.{Bytes, ok}
use snakesocks.Module.{ClientQuery, ConnectInfo, IsQuery, as_read, received}
use snakesocks.NetLib.{max_packet, to_string}
use snakesocks.SimpleProxy.{Memory}
use snakesocks.SimpleProxy.Struct.{IsMemory}
use snakesocks.Aes.{BlockCipher, CipherLaws}
use snakesocks.SeProxy.{
  client_make_auth_query, Key, client, server, client_encode, client_decode, server_encode,
  server_decode,
}
use snakesocks.SeProxy.Codec.{client_decode-server_encode}
use snakesocks.SeProxy.Login.{client_deal_auth_reply-server_make_auth_reply}
use snakesocks.Tunnel.{ModuleLaws}
use snakesocks.Tunnel.Login.{LoginLaws, Exchange}
use snakesocks.Tunnel.Pipeline.{IsCodec, PipelineLaws, same_packet}

abbrev pub SharedKey : ConnectInfo Key → ConnectInfo Key → Type 0
SharedKey c s = (key : Key) × (c.additional_info ≡ some key) × (s.additional_info ≡ some key)

module _ (cipher : BlockCipher) (laws : CipherLaws cipher) (mem : Memory) (m : IsMemory mem) where
  pub secure_codec-client :
      (c s : ConnectInfo Key) (q : ClientQuery)
      → SharedKey c s
      → IsQuery q
      → length q.payload.str + 43 ≤ max_packet
      → (packet : Bytes) × (c' : ConnectInfo Key) × (s' : ConnectInfo Key) × (client_encode cipher
            mem c q
          ≡ (ok (received packet), c'))
        × (server_decode cipher mem s (received packet) ≡ (ok (as_read q), s'))
        × SharedKey c' s'
        × (1 ≤ length packet)
        × (length packet ≤ length q.payload.str + 43)
  secure_codec-client c s q link h fits =
      let (key, kc, ks) = link in
      let (packet, e, d, e', d', least, most) =
        client_decode-server_encode cipher laws mem c s key q kc ks m h (omega arith) in
      (packet, c, s, e', d', link, omega arith, most)

  pub secure_codec-server :
      (c s : ConnectInfo Key) (q : ClientQuery)
      → SharedKey c s
      → IsQuery q
      → length q.payload.str + 43 ≤ max_packet
      → (packet : Bytes) × (c' : ConnectInfo Key) × (s' : ConnectInfo Key) × (server_encode cipher
            mem s q
          ≡ (ok (received packet), s'))
        × (client_decode cipher mem c (received packet) ≡ (ok (as_read q), c'))
        × SharedKey c' s'
        × (1 ≤ length packet)
        × (length packet ≤ length q.payload.str + 43)
  secure_codec-server c s q link h fits =
      let (key, kc, ks) = link in
      let (packet, e, d, e', d', least, most) =
        client_decode-server_encode cipher laws mem c s key q kc ks m h (omega arith) in
      (packet, c, s, e, d, link, omega arith, most)

  -- Any two ends that hold a common key have what the tunnel needs of a module, whatever random
  -- number the server draws.
  abbrev pub secure_laws : (tmprnd : ℕ) → ModuleLaws (client cipher mem) (server cipher mem tmprnd)
  secure_laws tmprnd = record {
    Link = SharedKey;
    overhead = 43;
    client_codec = secure_codec-client;
    server_codec = secure_codec-server;
  }

  -- Ends with one passphrase accept each other, with the key that the server has drawn, and go on from there.
  pub secure_meeting :
      (tmprnd : ℕ) (c s : ConnectInfo Key)
      → s.passphrase.str ≡ c.passphrase.str
      → length c.passphrase.str ≤ max_packet
      → Exchange
          (client cipher mem)
          (server cipher mem tmprnd)
          (λ c' s'.
            (c'.additional_info ≡ some (b'_' ∷ to_string tmprnd))
            × (s'.additional_info ≡ some (b'_' ∷ to_string tmprnd)))
          c
          s
  secure_meeting tmprnd c s same short =
      let key : Key = b'_' ∷ to_string tmprnd in
      let (query, reply, ask, say, hear, few, few') =
        client_deal_auth_reply-server_make_auth_reply cipher laws tmprnd c s same in
      let c1 = (client_make_auth_query cipher c).1 in
      (
        query,
        reply,
        c1,
        record c { additional_info = some key },
        record s { additional_info = some key },
        ap (λ r. (r, c1)) ask,
        say,
        hear,
        (refl, refl),
        omega arith,
        omega arith,
      )

  pub secure-Exchange :
      (tmprnd : ℕ) (c s : ConnectInfo Key)
      → s.passphrase.str ≡ c.passphrase.str
      → length c.passphrase.str ≤ max_packet
      → Exchange (client cipher mem) (server cipher mem tmprnd) SharedKey c s
  secure-Exchange tmprnd c s same short =
      let (query, reply, c1, c2, s1, ask, say, hear, (kc, ks), few, few') =
        secure_meeting tmprnd c s same short in
      (query, reply, c1, c2, s1, ask, say, hear, (b'_' ∷ to_string tmprnd, kc, ks), few, few')

  -- And that their authentication gives them one, if they have the same passphrase.
  abbrev pub secure_login :
      (tmprnd : ℕ) → LoginLaws (client cipher mem) (server cipher mem tmprnd) (secure_laws tmprnd)
  secure_login tmprnd = record { exchange = secure-Exchange tmprnd }

  module _ (key : Key) where
    abbrev HasKey : ConnectInfo Key → Type 0
    HasKey c = c.additional_info ≡ some key

    pub secure_up : IsCodec (client_encode cipher mem) (server_decode cipher mem) HasKey HasKey 43
    secure_up c q k h fits =
        let (packet, _, _, e, _, least, most) =
          client_decode-server_encode cipher laws mem c c key q k k m h (omega arith) in
        (
          packet,
          c,
          e,
          k,
          omega arith,
          most,
          λ s k'.
              let (other, _, _, e', dec, _, _) =
                client_decode-server_encode cipher laws mem c s key q k k' m h (omega arith) in
              (s, rw (same_packet (client_encode cipher mem c q) packet other c c e e') dec, k'),
        )

    pub secure_down : IsCodec (server_encode cipher mem) (client_decode cipher mem) HasKey HasKey 43
    secure_down s q k h fits =
        let (packet, e, _, _, _, least, most) =
          client_decode-server_encode cipher laws mem s s key q k k m h (omega arith) in
        (
          packet,
          s,
          e,
          k,
          omega arith,
          most,
          λ c k'.
              let (other, e', dec, _, _, _, _) =
                client_decode-server_encode cipher laws mem c s key q k' k m h (omega arith) in
              (c, rw (same_packet (server_encode cipher mem s q) packet other s s e e') dec, k'),
        )

    -- With one key, several packets can be on their way.
    abbrev pub secure_pipeline :
        (tmprnd : ℕ) → PipelineLaws (client cipher mem) (server cipher mem tmprnd)
    secure_pipeline tmprnd = record {
      Client = HasKey;
      Server = HasKey;
      overhead = 43;
      client_codec = secure_up;
      server_codec = secure_down;
    }
