-- ===== src/SeProxy/Codec.antt =====
-- The packets of src/modules/se_proxy/se_proxy.c: what one end encrypts the other decrypts, under the
-- key that both hold.
use snakesocks.Base.{
  ℕ, ◌+◌, ◌%◌, ◌^◌, ◌≤◌, ◌<◌, ◌≡◌, refl, some, [], ◌∷◌, ◌++◌, arith, length, le→leb, gt→leb,
  replicate, length-append, ◌-◌,
}
use snakesocks.Io.{Bytes, ok}
use snakesocks.Module.{IsQuery, as_read, ClientQuery, ConnectInfo, received, returned-whole}
use snakesocks.SimpleProxy.{Memory, data_struct}
use snakesocks.SimpleProxy.Struct.{
  IsMemory, at_16-struct, at_32-struct, length-struct, take-struct, payload-struct,
  data_struct-IsByte,
}
use snakesocks.Aes.{BlockCipher, CipherLaws, round_up, padded}
use snakesocks.Aes.Padding.{round_up-bounds, aes_decrypt-aes_encrypt}
use snakesocks.SeProxy.{Key, client_encode, client_decode, server_encode, server_decode, read_query}

-- The query is found in the buffer, whatever the padding behind it.
read_query-padded :
    (mem : Memory) (q : ClientQuery)
    → IsQuery q
    → (n : ℕ) → 24 < n
    → read_query mem (padded (data_struct mem q)) n ≡ ok (as_read q)
unfolding read_query padded
read_query-padded mem q h n long =
    let (above, below, even) = round_up-bounds (length (data_struct mem q)) in
    let delta = round_up (length (data_struct mem q)) 16 - length (data_struct mem q) in
    let rest : Bytes = replicate (delta - 1) 0 ++ (delta ∷ []) in
    let size : 24 + length q.payload.str ≤ length (data_struct mem q ++ rest) =
      omega (arith, length-append (data_struct mem q) rest, length-struct mem q h) in
    rw
      (
        at_16-struct mem q rest h,
        at_32-struct mem q rest h,
        take-struct mem q rest h,
        payload-struct mem q rest h,
        gt→leb n 24 long,
        le→leb (24 + length q.payload.str) (length (data_struct mem q ++ rest)) size,
      )
      refl

module _ (cipher : BlockCipher) (laws : CipherLaws cipher) (mem : Memory) where
  -- When both ends hold the same key, what either end encrypts of a query within the ranges of its types, with less
  -- than 2 ^ 32 - 43 bytes of payload, by a cipher that decrypts what it encrypts, the other decrypts to that query. The packet is 28 to 43 bytes
  -- longer than the payload.
  pub client_decode-server_encode :
      (c s : ConnectInfo Key) (key : Key) (q : ClientQuery)
      → c.additional_info ≡ some key
      → s.additional_info ≡ some key
      → IsMemory mem
      → IsQuery q
      → length q.payload.str + 43 < 2 ^ 32
      → (packet : Bytes) × (server_encode cipher mem s q ≡ (ok (received packet), s))
        × (client_decode cipher mem c (received packet) ≡ (ok (as_read q), c))
        × (client_encode cipher mem c q ≡ (ok (received packet), c))
        × (server_decode cipher mem s (received packet) ≡ (ok (as_read q), s))
        × (length q.payload.str + 28 ≤ length packet)
        × (length packet ≤ length q.payload.str + 43)
  unfolding client_encode client_decode server_encode server_decode
  client_decode-server_encode c s key q kc ks m h fits =
      let size = length-struct mem q h in
      let (above, below, even) = round_up-bounds (length (data_struct mem q)) in
      let (out, e, d, n) =
        aes_decrypt-aes_encrypt cipher laws (data_struct mem q) key (data_struct-IsByte mem q m h)
          (omega arith) in
      let found = read_query-padded mem q h (length (data_struct mem q) % 2 ^ 32) (omega arith) in
      let whole =
        returned-whole out
          (omega (arith, n, round_up-bounds (length (data_struct mem q)), length-struct mem q h)) in
      (
        out,
        rw (ks, e, whole) refl,
        rw (kc, d, found) refl,
        rw (kc, e, whole) refl,
        rw (ks, d, found) refl,
        omega arith,
        omega arith,
      )
