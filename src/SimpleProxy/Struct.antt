-- ===== src/SimpleProxy/Struct.antt =====
-- The packet of src/modules/simple_proxy/simple_proxy.c, which src/modules/se_proxy/se_proxy.c also
-- has: where a receiver finds its fields.
use snakesocks.Base.{
  ◌+◌, ◌≡◌, ap, ◌∙◌, sym, [], ◌∷◌, ◌++◌, arith, All, length, take, drop, take-append, length-append,
  append_assoc, get_or-append, drop-length_add, All-append,
}
use snakesocks.Io.{IsByte, Bytes}
use snakesocks.Module.{IsQuery, ClientQuery}
use snakesocks.SimpleProxy.{Memory, data_struct, bytes_16, bytes_32, at_16, at_32}

-- The five bytes that the module does not write are bytes.
pub record IsMemory (mem : Memory) : Type 0 where
  pub padding_bytes : All IsByte (mem.pad_0 ∷ mem.pad_1 ∷ [])
  pub end_bytes : All IsByte (mem.end_0 ∷ mem.end_1 ∷ mem.end_2 ∷ [])

module _ (mem : Memory) where
  -- What the structure holds behind the address.
  abbrev fields : ClientQuery → Bytes
  fields q =
      bytes_16 q.destination_port
      ++ (mem.pad_0
          ∷ mem.pad_1
          ∷ (bytes_32 (length q.payload.str)
              ++ (q.payload.str ++ (mem.end_0 ∷ mem.end_1 ∷ mem.end_2 ∷ []))))

  -- The structure with other bytes behind it.
  struct-append :
      (q : ClientQuery) (rest : Bytes)
      → data_struct mem q ++ rest ≡ q.destination_ip ++ (fields q ++ rest)
  unfolding data_struct
  struct-append q rest = append_assoc q.destination_ip (fields q) rest

  pub at_16-struct :
      (q : ClientQuery) (rest : Bytes)
      → IsQuery q
      → at_16 (data_struct mem q ++ rest) 16 ≡ q.destination_port
  unfolding at_16 bytes_16
  at_16-struct q rest h =
      rw
        (
          struct-append q rest,
          get_or-append q.destination_ip (fields q ++ rest) 16 0 0 (omega arith),
          get_or-append q.destination_ip (fields q ++ rest) 17 1 0 (omega arith),
        )
        (omega arith)

  pub at_32-struct :
      (q : ClientQuery) (rest : Bytes)
      → IsQuery q
      → at_32 (data_struct mem q ++ rest) 20 ≡ length q.payload.str
  unfolding at_32 bytes_16 bytes_32
  at_32-struct q rest h =
      rw
        (
          struct-append q rest,
          get_or-append q.destination_ip (fields q ++ rest) 20 4 0 (omega arith),
          get_or-append q.destination_ip (fields q ++ rest) 21 5 0 (omega arith),
          get_or-append q.destination_ip (fields q ++ rest) 22 6 0 (omega arith),
          get_or-append q.destination_ip (fields q ++ rest) 23 7 0 (omega arith),
        )
        (omega arith)

  pub length-struct :
      (q : ClientQuery) → IsQuery q → length (data_struct mem q) ≡ length q.payload.str + 27
  unfolding data_struct
  length-struct q h =
      rw
        (
          length-append q.destination_ip (fields q),
          length-append q.payload.str (mem.end_0 ∷ mem.end_1 ∷ mem.end_2 ∷ []),
        )
        (omega arith)

  -- What a receiver copies as the payload.
  pub payload-struct :
      (q : ClientQuery) (rest : Bytes)
      → IsQuery q
      → take (length q.payload.str) (drop 24 (data_struct mem q ++ rest)) ≡ q.payload.str
  unfolding bytes_16 bytes_32
  payload-struct q rest h =
      let tail : Bytes = (mem.end_0 ∷ mem.end_1 ∷ mem.end_2 ∷ []) ++ rest in
      let behind : drop 24 (data_struct mem q ++ rest) ≡ q.payload.str ++ tail =
        ap (drop 24) (struct-append q rest)
        ∙ ap (λ k. drop (k + 8) (q.destination_ip ++ (fields q ++ rest))) (sym h.address_length)
        ∙ drop-length_add q.destination_ip (fields q ++ rest) 8
        ∙ append_assoc q.payload.str (mem.end_0 ∷ mem.end_1 ∷ mem.end_2 ∷ []) rest in
      rw behind (take-append q.payload.str tail)

  pub take-struct :
      (q : ClientQuery) (rest : Bytes)
      → IsQuery q
      → take 16 (data_struct mem q ++ rest) ≡ q.destination_ip
  take-struct q rest h =
      ap (take 16) (struct-append q rest)
      ∙ ap (λ k. take k (q.destination_ip ++ (fields q ++ rest))) (sym h.address_length)
      ∙ take-append q.destination_ip (fields q ++ rest)

  pub data_struct-IsByte :
      (q : ClientQuery) → IsMemory mem → IsQuery q → All IsByte (data_struct mem q)
  unfolding data_struct bytes_16 bytes_32
  data_struct-IsByte q m h =
      let rest =
        All-append IsByte q.payload.str (mem.end_0 ∷ mem.end_1 ∷ mem.end_2 ∷ []) h.payload_bytes
          m.end_bytes in
      All-append IsByte q.destination_ip (fields q) h.address_bytes (
        omega arith,
        (
          omega arith,
          (
            m.padding_bytes.0,
            (m.padding_bytes.1.0, (omega arith, (omega arith, (omega arith, (omega arith, rest))))),
          ),
        ),
      )
