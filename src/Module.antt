-- ===== src/Module.antt =====
-- src/modules/bss.h, conn.h, client_query.h and src/native/src/module.hpp, module.cc: the values that
-- cross the module interface, and the calls of a loaded module. A module is a shared object that the
-- user supplies, so its functions are a parameter. A module may write to the `connect_info` that it
-- is given by pointer: each function returns it anew.
pub mod Handle
pub mod Loading
use snakesocks.Base.{
  refl, ◌%◌, take, take_all, ltb, lt→ltb, arith, ◌≡◌, ◌<◌, ◌^◌, All, ℕ, Bool, false, Option, length,
  ◌==◌, if◌then◌else◌,
}
use snakesocks.Io.{IsByte, Bytes, Result, ok, overrun, M}

-- `length` is the length of `str`; the null pointer with length 0 is the empty list.
pub record BinarySafeString : Type 0 where
  pub null_terminated : Bool
  pub str : Bytes

-- `destination_ip` is an array of 16 bytes.
pub record ClientQuery : Type 0 where
  pub destination_ip : Bytes
  pub destination_port : ℕ
  pub payload : BinarySafeString

-- `I` is what a module keeps behind `additional_info`, with `none` for the null pointer.
pub record ConnectInfo (I : Type 0) : Type 0 where
  pub server_ip : Bytes
  pub server_port : ℕ
  pub passphrase : BinarySafeString
  pub connect_fd : ℕ
  pub additional_info : Option I

-- The functions that `loadSo` finds in the shared object. A C function does not throw, but it may
-- run over a buffer.
pub record ClientFunctions (I : Type 0) : Type 0 where
  pub client_make_auth_query : ConnectInfo I → Result BinarySafeString × ConnectInfo I
  pub client_deal_auth_reply : ConnectInfo I → BinarySafeString → Result Bool × ConnectInfo I
  pub client_encode : ConnectInfo I → ClientQuery → Result BinarySafeString × ConnectInfo I
  pub client_decode : ConnectInfo I → BinarySafeString → Result ClientQuery × ConnectInfo I
  pub client_connection_close : ConnectInfo I → ConnectInfo I

-- `server_make_auth_reply` also returns what it writes to its third argument, `auth_failed`.
pub record ServerFunctions (I : Type 0) : Type 0 where
  pub server_make_auth_reply :
      ConnectInfo I → BinarySafeString → Result (BinarySafeString × Bool) × ConnectInfo I
  pub server_encode : ConnectInfo I → ClientQuery → Result BinarySafeString × ConnectInfo I
  pub server_decode : ConnectInfo I → BinarySafeString → Result ClientQuery × ConnectInfo I
  pub server_connection_close : ConnectInfo I → ConnectInfo I

-- The bytes that were received, as `binary_safe_string{false, len, data}`.
abbrev pub received : Bytes → BinarySafeString
received bs = record { null_terminated = false; str = bs }

-- `make_binary_safe_string(std::string)` of module-port.hpp, whose buffer has the size as a uint32_t, and
-- `std_string_to_bin_safe` of socks5.cc, whose `length` is a uint32_t and whose buffer has the size itself.
unfoldable pub make_binary_safe_string : Bytes → Result BinarySafeString
make_binary_safe_string str = if ltb (length str) (2 ^ 32) then ok (received str) else overrun

unfoldable pub std_string_to_bin_safe : Bytes → BinarySafeString
std_string_to_bin_safe src = received (take (length src % 2 ^ 32) src)

-- A buffer that a module returns, whose `length` is a uint32_t: what follows that many bytes is not looked at.
unfoldable pub returned : Bytes → BinarySafeString
returned buffer = received (take (length buffer % 2 ^ 32) buffer)

pub returned-whole : (buffer : Bytes) → length buffer < 2 ^ 32 → returned buffer ≡ received buffer
unfolding returned
returned-whole buffer h = rw (take_all (length buffer % 2 ^ 32) buffer (omega arith)) refl

-- As long as the size fits a uint32_t, both hold all of the string.
pub make_binary_safe_string_lem :
    (str : Bytes)
    → length str < 2 ^ 32
    → make_binary_safe_string str ≡ ok (std_string_to_bin_safe str)
unfolding make_binary_safe_string std_string_to_bin_safe
make_binary_safe_string_lem str h =
    rw (lt→ltb (length str) (2 ^ 32) h, take_all (length str % 2 ^ 32) str (omega arith)) refl

-- A query within the ranges of its C types: 16 bytes of address, a port below 2 ^ 16 and at most 2 ^ 32 - 1
-- bytes of payload.
pub record IsQuery (q : ClientQuery) : Type 0 where
  pub address_length : length q.destination_ip ≡ 16
  pub address_bytes : All IsByte q.destination_ip
  pub port_range : q.destination_port < 2 ^ 16
  pub payload_length : length q.payload.str < 2 ^ 32
  pub payload_bytes : All IsByte q.payload.str

-- The query as the other end has it: its payload is no longer known to end in a zero byte.
abbrev pub as_read : ClientQuery → ClientQuery
as_read q = record q { payload = received q.payload.str }

-- The methods of `client_impl`; those of `server_impl` pass their arguments on as they are.
module _ {I : Type 0} (client : ClientFunctions I) where
  unfoldable pub make_auth_query : M (ConnectInfo I) BinarySafeString
  make_auth_query conn = client.client_make_auth_query conn

  unfoldable pub on_auth_reply : Bytes → M (ConnectInfo I) Bool
  on_auth_reply authdata conn = client.client_deal_auth_reply conn (received authdata)

  -- An empty payload leaves that of the template.
  unfoldable pub encode : BinarySafeString → ClientQuery → M (ConnectInfo I) BinarySafeString
  encode payload addr_template conn = client.client_encode conn (
      if length payload.str == 0 then addr_template else record addr_template { payload = payload })

  unfoldable pub decode : BinarySafeString → M (ConnectInfo I) ClientQuery
  decode payload conn = client.client_decode conn payload

  unfoldable pub on_close_conn : ConnectInfo I → ConnectInfo I
  on_close_conn conn = client.client_connection_close conn
