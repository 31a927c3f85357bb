-- ===== src/SimpleProxy/Codec.antt =====
-- The packets of src/modules/simple_proxy/simple_proxy.c: what one end encodes the other decodes.
use snakesocks.Base.{◌^◌, ◌+◌, ◌<◌, ◌≡◌, refl, ◌∙◌, [], arith, length, le→leb, gt→leb, append-nil}
use snakesocks.Io.{Bytes, ok}
use snakesocks.Module.{IsQuery, as_read, ClientQuery, ConnectInfo, received, returned-whole}
use snakesocks.SimpleProxy.{Memory, xor_all, data_struct, read_struct, encode, decode, simple_hash}
use snakesocks.SimpleProxy.Struct.{
  IsMemory, at_16-struct, at_32-struct, length-struct, take-struct, payload-struct,
  data_struct-IsByte,
}
use snakesocks.SimpleProxy.Key.{xor_all_twice, length-xor_all, simple_hash-lt}

module _ (mem : Memory) where
  -- Every query that fits is read back from its structure.
  pub read_struct-data_struct :
      (q : ClientQuery) → IsQuery q → read_struct mem (data_struct mem q) ≡ ok (as_read q)
  unfolding read_struct
  read_struct-data_struct q h =
      let same = append-nil (data_struct mem q) in
      rw
        (
          rw same at (at_16-struct mem q [] h),
          rw same at (at_32-struct mem q [] h),
          length-struct mem q h,
          rw same at (take-struct mem q [] h),
          gt→leb (length q.payload.str + 27) 24 (omega arith),
          le→leb (24 + length q.payload.str) (length q.payload.str + 27) (omega arith),
          rw same at (payload-struct mem q [] h),
        )
        refl

  -- Under equal passphrases, what either end encodes of a query within the ranges of its types, with less than
  -- 2 ^ 32 - 27 bytes of payload, the other decodes to that query, whatever bytes stood in the memory that is sent along. The packet is 27 bytes longer than
  -- the payload.
  pub decode-encode :
      (c s : ConnectInfo (Unit {0})) (q : ClientQuery)
      → s.passphrase.str ≡ c.passphrase.str
      → IsMemory mem
      → IsQuery q
      → length q.payload.str + 27 < 2 ^ 32
      → (packet : Bytes) × (encode mem c q ≡ (ok (received packet), c))
        × (decode mem s (received packet) ≡ (ok (as_read q), s))
        × (length packet ≡ length q.payload.str + 27)
  unfolding encode decode
  decode-encode c s q same m h fits =
      let key = simple_hash c.passphrase.str in
      let size = length-xor_all key (data_struct mem q) ∙ length-struct mem q h in
      (
        xor_all key (data_struct mem q),
        rw (returned-whole (xor_all key (data_struct mem q)) (omega arith)) refl,
        rw
            (
              same,
              xor_all_twice key (data_struct mem q) (simple_hash-lt c.passphrase.str)
                  (data_struct-IsByte mem q m h),
              read_struct-data_struct q h,
            )
            refl,
        size,
      )
