-- ===== src/SimpleProxy/Ranges.antt =====
-- The values that src/modules/simple_proxy/simple_proxy.c decodes lie within their C types, whatever has arrived.
use snakesocks.Base.{
  ◌+◌, ◌<◌, ◌≤◌, ◌^◌, ℕ, Bool-cases, inl, inr, All, All-take, All-drop, All-get_or, get_or, take,
  drop, length, length-take_le, leb, arith, [], ◌∷◌, zero, suc, ◌≡◌, ◌⊎◌, refl, ap,
}
use snakesocks.Io.{IsByte, Bytes, ok, overrun}
use snakesocks.Module.{ClientQuery, ConnectInfo, IsQuery, received}
use snakesocks.SimpleProxy.{Memory, simple_hash, xor_all, at_16, at_32, read_struct, decode}
use snakesocks.SimpleProxy.Key.{length-xor_all, simple_hash-lt, xor_all-IsByte}

byte_at : (bs : Bytes) (i : ℕ) → All IsByte bs → get_or bs i 0 < 256
byte_at bs i h = All-get_or IsByte bs i 0 h (omega arith)

at_16-lt : (bs : Bytes) (i : ℕ) → All IsByte bs → at_16 bs i < 2 ^ 16
unfolding at_16
at_16-lt bs i h = omega (arith, byte_at bs i h, byte_at bs (i + 1) h)

at_32-lt : (bs : Bytes) (i : ℕ) → All IsByte bs → at_32 bs i < 2 ^ 32
unfolding at_32
at_32-lt bs i h =
    omega (arith, byte_at bs i h, byte_at bs (i + 1) h, byte_at bs (i + 2) h, byte_at bs (i + 3) h)

length-take_bound : (n : ℕ) (bs : Bytes) → length (take n bs) ≤ n
length-take_bound zero bs = omega arith
length-take_bound (suc n) [] = omega arith
length-take_bound (suc n) (b ∷ bs) = omega (arith, length-take_bound n bs)

module _ (mem : Memory) (set : IsQuery mem.unset) where
  read_struct-IsQuery :
      (bs : Bytes)
      → All IsByte bs
      → ((q : ClientQuery) × (read_struct mem bs ≡ ok q) × IsQuery q)
        ⊎ ((read_struct mem bs ≡ overrun) × (24 < length bs) × (length bs < 24 + at_32 bs 20))
  unfolding read_struct
  read_struct-IsQuery bs h = elim (Bool-cases (leb (length bs) 24)) [
    | inl short ↦ inl (
      record mem.unset { payload = record mem.unset.payload { str = [] } },
      rw short refl,
      record {
        address_length = set.address_length;
        address_bytes = set.address_bytes;
        port_range = set.port_range;
        payload_length = omega arith;
        payload_bytes = tt;
      },
    )
    | inr long ↦ elim (Bool-cases (leb (24 + at_32 bs 20) (length bs))) [
      | inl fits ↦ inl (
        record {
          destination_ip = take 16 bs;
          destination_port = at_16 bs 16;
          payload = received (take (at_32 bs 20) (drop 24 bs));
        },
        rw (long, fits) refl,
        record {
          address_length = length-take_le 16 bs (ground arith);
          address_bytes = All-take IsByte 16 bs h;
          port_range = at_16-lt bs 16 h;
          payload_length =
              omega (arith, length-take_bound (at_32 bs 20) (drop 24 bs), at_32-lt bs 20 h);
          payload_bytes = All-take IsByte (at_32 bs 20) (drop 24 bs) (All-drop IsByte 24 bs h);
        },
      )
      | inr over ↦ inr (rw (long, over) refl, ground arith, ground arith)
    ]
  ]

  -- Whatever bytes have arrived, under whatever passphrase, the module returns a query within the ranges of
  -- its C types, if the memory that it leaves unset for a packet of at most 24 bytes is one; or it
  -- runs over the packet, and then that has more than 24 bytes and, under the key, a length field that
  -- names more than it has. It leaves the connection as it is.
  pub decode-IsQuery :
      (s : ConnectInfo (Unit {0})) (bs : Bytes)
      → All IsByte bs
      → ((q : ClientQuery) × (decode mem s (received bs) ≡ (ok q, s)) × IsQuery q)
        ⊎ ((decode mem s (received bs) ≡ (overrun, s))
            × (24 < length bs)
            × (length bs < 24 + at_32 (xor_all (simple_hash s.passphrase.str) bs) 20))
  unfolding decode
  decode-IsQuery s bs h =
      let key = simple_hash s.passphrase.str in
      elim (read_struct-IsQuery (xor_all key bs)
        (xor_all-IsByte key bs (simple_hash-lt s.passphrase.str) h)) [
          | inl (q, e, isq) ↦ inl (q, ap (λ r. (r, s)) e, isq)
          | inr (e, long, over) ↦ inr (
            ap (λ r. (r, s)) e,
            omega (arith, length-xor_all key bs),
            omega (arith, length-xor_all key bs),
          )
        ]
