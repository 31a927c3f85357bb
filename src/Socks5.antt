-- ===== src/Socks5.antt =====
-- The SOCKS5 dialogue with the local client: the packet functions of the class Socks5Connection, in
-- src/native/src/socks5.cc. A `char` is signed, as on x86, and a `size_t` has 64 bits.
pub mod Handshake
pub mod Connect
use snakesocks.Base.{
  ℕ, ◌+◌, ◌-◌, ◌*◌, ◌%◌, ◌^◌, Bool, true, false, List, [], ◌∷◌, ◌++◌, length, get_or, take, drop,
  set, ltb, leb, ◌==◌, if◌then◌else◌,
}
use snakesocks.Io.{
  Bytes, Error, incorrect_protocol, incorrect_ver, invalid_atyp, wrong_atyp, bad_cmd, Result, ok,
  thrown, overrun, M, follow, ◌>>=◌, ◌>>◌, return, die, out_of_bounds, guard, SockIo, recv_into,
}
use snakesocks.NetLib.{c_string}
use snakesocks.Addr.{AddrInfo, set_ipv4, set_ipv6, set_domain}

-- `(size_t) c` for a `char c`, given by its byte.
unfoldable pub size_of_char : ℕ → ℕ
size_of_char c = if ltb c 128 then c else c + (2 ^ 64 - 256)

-- The loop that looks for method 0, "no authentication".
unfoldable pub offers_no_auth : Bytes → Bool
offers_no_auth [] = false
offers_no_auth (m ∷ methods) = if m == 0 then true else offers_no_auth methods

abbrev pub head_buf_size : ℕ
head_buf_size = 258

abbrev pub buf_size : ℕ
buf_size = 263

module _ (io : SockIo) where
  unfoldable pub handshake_pkgs : ℕ → M io.World (Unit {0})
  unfolding size_of_char offers_no_auth
  handshake_pkgs fd = do
    head ← recv_into io head_buf_size fd 2
    guard (get_or head 0 0 == 5) incorrect_protocol
    methods ← recv_into io (head_buf_size - 2) fd (size_of_char (get_or head 1 0))
    io.sendn fd (5 ∷ (if offers_no_auth methods then 0 else 255) ∷ [])

-- `ntohs` of the two bytes at an offset.
unfoldable pub ntohs_at : Bytes → ℕ → ℕ
ntohs_at pkg i = get_or pkg i 0 * 256 + get_or pkg (i + 1) 0

-- The bytes up to the first zero byte, or all: what `std::string(sbuffer)` copies, with a zero byte
-- written behind the last.
unfoldable pub until_nul : Bytes → Bytes
until_nul [] = []
until_nul (b ∷ bs) = if b == 0 then [] else b ∷ until_nul bs

-- The packet stands in a buffer of `buf_size` bytes, and a length beyond it reads outside.
unfoldable pub unpack_domain : Bytes → Result AddrInfo
unfolding size_of_char ntohs_at until_nul set_domain
unpack_domain pkg =
    let addrlen = size_of_char (get_or pkg 4 0) in
    if leb (5 + addrlen + 2) buf_size
    then ok (set_domain (until_nul (take addrlen (drop 5 pkg))) (ntohs_at pkg (5 + addrlen)))
    else overrun

-- The address of a packet; its command is byte 1 and its type byte 3.
unfoldable pub unpack_connection_packet : Bytes → Result AddrInfo
unfolding unpack_domain ntohs_at set_ipv4 set_ipv6
unpack_connection_packet pkg =
    let atyp = get_or pkg 3 0 in
    if get_or pkg 0 0 == 5
    then if atyp == 1
      then ok (set_ipv4 (take 4 (drop 4 pkg)) (ntohs_at pkg 8))
      else if atyp == 4
      then ok (set_ipv6 (take 16 (drop 4 pkg)) (ntohs_at pkg 20))
      else if atyp == 3
      then unpack_domain pkg
      else thrown invalid_atyp
    else thrown incorrect_ver

-- How many bytes of address the switch in `connect_pkgs` waits for, less the one that is read.
unfoldable pub address_length : Bytes → Result ℕ
unfolding size_of_char
address_length head =
    let atyp = get_or head 3 0 in
    if atyp == 1
    then ok 4
    else if atyp == 3
    then ok ((size_of_char (get_or head 4 0) + 1) % 2 ^ 64)
    else if atyp == 4
    then ok 16
    else thrown wrong_atyp

abbrev pub lift : {W A : Type 0} → Result A → M W A
lift r w = (r, w)

module _ (io : SockIo) where
  unfoldable pub connect_pkgs : ℕ → M io.World AddrInfo
  unfolding address_length unpack_connection_packet
  connect_pkgs fd = do
    head ← recv_into io buf_size fd 5
    addrlen ← lift (address_length head)
    tail ← recv_into io (buf_size - 5) fd ((addrlen + 1) % 2 ^ 64)
    let buf = head ++ tail
    remote_info ← lift (unpack_connection_packet buf)
    guard (get_or buf 1 0 == 1) (bad_cmd (get_or buf 1 0))
    io.sendn fd (take (addrlen + 6) (set buf 1 0))
    return remote_info
