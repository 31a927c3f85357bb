-- ===== src/SeProxy.antt =====
-- The module src/modules/se_proxy/se_proxy.c, on a little-endian machine. The passphrase encrypts the
-- authentication, in which the server hands out a random key; each end keeps it behind
-- `additional_info` and encrypts the packets with it. The packet is that of simple_proxy.c.
pub mod Codec
pub mod Login
use snakesocks.Base.{
  ℕ, ◌+◌, ◌-◌, ◌^◌, ◌%◌, Bool, true, false, Option, none, some, [], ◌∷◌, ◌++◌, ◌||◌, length, take,
  drop, leb, ltb, ◌==◌, if◌then◌else◌,
}
use snakesocks.Io.{Bytes, Result, ok, thrown, overrun}
use snakesocks.Module.{
  BinarySafeString, ClientQuery, ConnectInfo, ClientFunctions, ServerFunctions, received, returned,
}
use snakesocks.NetLib.{codes, to_string}
use snakesocks.SimpleProxy.{Memory, data_struct, at_16, at_32}
use snakesocks.Aes.{BlockCipher, and_then, mode_fill, aes_encrypt, aes_decrypt}

-- `AUTH_STR` and `MAGIC_STR`.
abbrev pub auth_str : Bytes
auth_str = codes "SE_PROXYv1"

abbrev pub magic_str : Bytes
magic_str = codes "SE_MAGIC"

-- Whether two buffers of one length hold the same, character by character.
abbrev pub equal_chars : Bytes → Bytes → Bool
equal_chars [] [] = true
equal_chars [] (b ∷ bs) = false
equal_chars (a ∷ as') [] = false
equal_chars (a ∷ as') (b ∷ bs) = let rest = equal_chars as' bs in if a == b then rest else false

-- The lengths that are given decide first; a buffer shorter than its length is left.
unfoldable pub strfullcmp : Bytes → Bytes → ℕ → ℕ → Result Bool
strfullcmp a b alen blen =
    if alen == blen
    then (if leb alen (length a) then ok (equal_chars (take alen a) (take blen b)) else overrun)
    else ok false

-- A `sym_passphrase`, which is a length and as many characters, is the list of these.
abbrev pub Key : Type 0
Key = Bytes

-- `((sym_passphrase*)(conn->additional_info))`, which the code uses without looking whether it is null.
abbrev pub key_of : {A : Type 0} → ConnectInfo Key → (Key → Result A) → Result A
key_of conn f = elim conn.additional_info [ none ↦ overrun | some key ↦ f key ]

-- What stands behind the magic string is the key. With a length below that of the magic string its
-- own length wraps around.
unfoldable pub take_key : Bytes → ℕ → ConnectInfo Key → Result Bool × ConnectInfo Key
take_key result rlen conn =
    if equal_chars (take 8 result) magic_str
    then (if ltb rlen 8 || ltb (length result) rlen
        then (overrun, conn)
        else (ok true, record conn { additional_info = some (take (rlen - 8) (drop 8 result)) }))
    else (ok false, conn)

-- The query in the buffer `data`, of which `n` bytes count. The length field says how many bytes
-- are copied, from the buffer and what is behind it.
unfoldable pub read_query : Memory → Bytes → ℕ → Result ClientQuery
unfolding at_16 at_32
read_query mem src n =
    let plsz = at_32 src 20 in
    if leb n 24
    then ok (record mem.unset { payload = record mem.unset.payload { str = [] } })
    else if leb (24 + plsz) (length src)
    then ok (record {
      destination_ip = take 16 src;
      destination_port = at_16 src 16;
      payload = received (take plsz (drop 24 src));
    })
    else overrun

module _ (cipher : BlockCipher) where
  -- The client's side.
  unfoldable pub client_make_auth_query :
      ConnectInfo Key → Result BinarySafeString × ConnectInfo Key
  client_make_auth_query conn = (
    and_then (aes_encrypt cipher auth_str conn.passphrase.str mode_fill) (λ out. ok (received out)),
    record conn { additional_info = none },
  )

  unfoldable pub client_deal_auth_reply :
      ConnectInfo Key → BinarySafeString → Result Bool × ConnectInfo Key
  unfolding take_key
  client_deal_auth_reply conn server_reply =
      elim (aes_decrypt cipher server_reply.str conn.passphrase.str mode_fill) [
        | ok (result, rlen) ↦ take_key result rlen conn
        | thrown e ↦ (thrown e, conn)
        | overrun ↦ (overrun, conn)
      ]

  -- The server's side. The reply with which it refuses is not encrypted.
  unfoldable pub server_make_auth_reply :
      ℕ → ConnectInfo Key → BinarySafeString → Result (BinarySafeString × Bool) × ConnectInfo Key
  unfolding strfullcmp
  server_make_auth_reply tmprnd conn d =
      let refuse : Result (BinarySafeString × Bool) = ok (received (1 ∷ []), true) in
      let key : Key = b'_' ∷ to_string tmprnd in
      let reply =
        and_then (aes_encrypt cipher (magic_str ++ key) conn.passphrase.str mode_fill)
          (λ out. ok (received out, false)) in
      elim (and_then (aes_decrypt cipher d.str conn.passphrase.str mode_fill)
        (λ (request, rlen). strfullcmp request auth_str rlen (length auth_str))) [
          | ok true ↦ (reply, record conn { additional_info = some key })
          | ok false ↦ (refuse, conn)
          | thrown e ↦ (thrown e, conn)
          | overrun ↦ (overrun, conn)
        ]

module _ (cipher : BlockCipher) (mem : Memory) where
  unfoldable pub client_encode :
      ConnectInfo Key → ClientQuery → Result BinarySafeString × ConnectInfo Key
  client_encode conn payload = (
    key_of conn (λ key.
        and_then (aes_encrypt cipher (data_struct mem payload) key mode_fill)
          (λ out. ok (returned out))),
    conn,
  )

  -- `data.length` is a uint32_t.
  unfoldable pub client_decode :
      ConnectInfo Key → BinarySafeString → Result ClientQuery × ConnectInfo Key
  unfolding read_query
  client_decode conn d = (
    key_of conn (λ key.
        and_then (aes_decrypt cipher d.str key mode_fill)
          (λ (tmpresult, n). read_query mem tmpresult (n % 2 ^ 32))),
    conn,
  )

  unfoldable pub server_encode :
      ConnectInfo Key → ClientQuery → Result BinarySafeString × ConnectInfo Key
  server_encode conn payload = (
    key_of conn (λ key.
        and_then (aes_encrypt cipher (data_struct mem payload) key mode_fill)
          (λ out. ok (returned out))),
    conn,
  )

  unfoldable pub server_decode :
      ConnectInfo Key → BinarySafeString → Result ClientQuery × ConnectInfo Key
  unfolding read_query
  server_decode conn d = (
    key_of conn (λ key.
        and_then (aes_decrypt cipher d.str key mode_fill)
          (λ (tmpresult, n). read_query mem tmpresult (n % 2 ^ 32))),
    conn,
  )

  -- `client_connection_close` and `server_connection_close` free the key and leave the pointer.
  unfoldable pub connection_close : ConnectInfo Key → ConnectInfo Key
  connection_close conn = conn

  abbrev pub client : ClientFunctions Key
  client = record {
    client_make_auth_query = client_make_auth_query cipher;
    client_deal_auth_reply = client_deal_auth_reply cipher;
    client_encode = client_encode;
    client_decode = client_decode;
    client_connection_close = connection_close;
  }

  abbrev pub server : ℕ → ServerFunctions Key
  server tmprnd = record {
    server_make_auth_reply = server_make_auth_reply cipher tmprnd;
    server_encode = server_encode;
    server_decode = server_decode;
    server_connection_close = connection_close;
  }
