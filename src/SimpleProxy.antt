-- ===== src/SimpleProxy.antt =====
-- The module src/modules/simple_proxy/simple_proxy.c, on a little-endian machine. Its packet is a C
-- structure, each byte of it combined with one byte of key: 16 bytes of address, the port in 2
-- bytes, 2 bytes of padding, the payload's length in 4 bytes, the payload, and 3 bytes behind it.
pub mod Codec
pub mod Key
pub mod Ranges
pub mod Struct
use Prim.Native.Nat.{bit_xor}
use snakesocks.Base.{
  ℕ, ◌+◌, ◌-◌, ◌*◌, ◌/◌, ◌%◌, ◌^◌, Bool, true, false, not, List, [], ◌∷◌, ◌++◌, map, length, get_or,
  take, drop, leb, ◌==◌, if◌then◌else◌,
}
use snakesocks.Io.{Bytes, Result, ok, overrun}
use snakesocks.Module.{
  BinarySafeString, ClientQuery, ConnectInfo, ClientFunctions, ServerFunctions, received, returned,
}
use snakesocks.Addr.{accumulate}

-- `simple_hash`: the sum of the characters in a uint8_t.
unfoldable pub simple_hash : Bytes → ℕ
unfolding accumulate
simple_hash str = accumulate 0 str

-- What memory holds that the module does not write: the padding and the end of a packet, and the
-- fields of a query that it returns unset.
pub record Memory : Type 0 where
  pub pad_0 : ℕ
  pub pad_1 : ℕ
  pub end_0 : ℕ
  pub end_1 : ℕ
  pub end_2 : ℕ
  pub unset : ClientQuery

-- A uint16_t and a uint32_t in memory.
unfoldable pub bytes_16 : ℕ → Bytes
bytes_16 n = (n % 256) ∷ (n / 256 % 256) ∷ []

unfoldable pub bytes_32 : ℕ → Bytes
bytes_32 n = (n % 256) ∷ (n / 256 % 256) ∷ (n / 2 ^ 16 % 256) ∷ (n / 2 ^ 24 % 256) ∷ []

unfoldable pub at_16 : Bytes → ℕ → ℕ
at_16 bs i = get_or bs i 0 + get_or bs (i + 1) 0 * 256

unfoldable pub at_32 : Bytes → ℕ → ℕ
at_32 bs i =
    get_or bs i 0
    + get_or bs (i + 1) 0 * 256
    + get_or bs (i + 2) 0 * 2 ^ 16
    + get_or bs (i + 3) 0 * 2 ^ 24

-- `data[i] ^ simple_encoder` for all i.
unfoldable pub xor_all : ℕ → Bytes → Bytes
xor_all key bs = map (λ b. bit_xor b key) bs

module _ (mem : Memory) where
  -- The structure, as `client_encode` and `server_encode` construct it.
  unfoldable pub data_struct : ClientQuery → Bytes
  unfolding bytes_16 bytes_32
  data_struct q =
      q.destination_ip
      ++ (bytes_16 q.destination_port
          ++ (mem.pad_0
              ∷ mem.pad_1
              ∷ (bytes_32 (length q.payload.str)
                  ++ (q.payload.str ++ (mem.end_0 ∷ mem.end_1 ∷ mem.end_2 ∷ [])))))

  -- The query read from it; its payload is copied from byte 24 on, as long as byte 20 to 23 say.
  unfoldable pub read_struct : Bytes → Result ClientQuery
  unfolding at_16 at_32
  read_struct bs =
      let plsz = at_32 bs 20 in
      if leb (length bs) 24
      then ok (record mem.unset { payload = record mem.unset.payload { str = [] } })
      else if leb (24 + plsz) (length bs)
      then ok (record {
        destination_ip = take 16 bs;
        destination_port = at_16 bs 16;
        payload = received (take plsz (drop 24 bs));
      })
      else overrun

  -- `client_encode` and `client_decode`, as which `server_encode` and `server_decode` are written.
  unfoldable pub encode :
      ConnectInfo (Unit {0}) → ClientQuery → Result BinarySafeString × ConnectInfo (Unit {0})
  unfolding simple_hash xor_all data_struct
  encode conn q = (ok (returned (xor_all (simple_hash conn.passphrase.str) (data_struct q))), conn)

  unfoldable pub decode :
      ConnectInfo (Unit {0}) → BinarySafeString → Result ClientQuery × ConnectInfo (Unit {0})
  unfolding simple_hash xor_all read_struct
  decode conn d = (read_struct (xor_all (simple_hash conn.passphrase.str) d.str), conn)

  abbrev pub server_encode :
      ConnectInfo (Unit {0}) → ClientQuery → Result BinarySafeString × ConnectInfo (Unit {0})
  server_encode conn q = encode conn q

  abbrev pub server_decode :
      ConnectInfo (Unit {0}) → BinarySafeString → Result ClientQuery × ConnectInfo (Unit {0})
  server_decode conn d = decode conn d

  -- `server_reply.str[0]`, as a bool.
  unfoldable pub first_byte : Bytes → Result Bool
  first_byte [] = overrun
  first_byte (b ∷ bs) = ok (not (b == 0))

  abbrev pub client : ClientFunctions (Unit {0})
  client = record {
    client_make_auth_query = λ conn. (ok (received conn.passphrase.str), conn);
    client_deal_auth_reply = λ conn reply. (first_byte reply.str, conn);
    client_encode = encode;
    client_decode = decode;
    client_connection_close = λ conn. conn;
  }

  -- Whatever the client sends, it is accepted.
  abbrev pub server : ServerFunctions (Unit {0})
  server = record {
    server_make_auth_reply = λ conn query. (ok (received (1 ∷ []), false), conn);
    server_encode = server_encode;
    server_decode = server_decode;
    server_connection_close = λ conn. conn;
  }
