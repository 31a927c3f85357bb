-- ===== src/NetLib.antt =====
-- src/native/src/lib/NetLib.hpp and NetLib.cc: packets with a length in front, DNS queries as client
-- queries with a zero address, and the texts of addresses.
pub mod Dns
pub mod Frames
pub mod Text
use Prim.Native.Char.{code}
use Prim.Native.String.{String}
use snakesocks.Base.{
  ℕ, zero, suc, ◌+◌, ◌-◌, ◌*◌, ◌/◌, ◌%◌, ◌^◌, ◌<◌, Bool, true, false, List, [], ◌∷◌, ◌++◌, Option,
  none, some, length, get_or, take, drop, replicate, All, ltb, leb, ◌==◌, if◌then◌else◌,
}
use snakesocks.Io.{
  Bytes, Error, refuse_to_send, refuse_to_recv, Result, ok, overrun, M, follow, ◌>>=◌, ◌>>◌, return,
  guard, SockIo,
}
use snakesocks.Module.{BinarySafeString, ClientQuery}

-- The memory of `htonl(n)`, as it is sent; `ntohl` of four bytes that were received.
unfoldable pub htonl : ℕ → Bytes
htonl n = (n / 2 ^ 24 % 256) ∷ (n / 2 ^ 16 % 256) ∷ (n / 2 ^ 8 % 256) ∷ (n % 256) ∷ []

unfoldable pub ntohl : Bytes → ℕ
ntohl bs = get_or bs 0 0 * 2 ^ 24 + get_or bs 1 0 * 2 ^ 16 + get_or bs 2 0 * 2 ^ 8 + get_or bs 3 0

abbrev pub max_packet : ℕ
max_packet = 64 * 1024 * 1024

module _ (io : SockIo) where
  unfoldable pub send_length_and_packet : ℕ → Bytes → M io.World (Unit {0})
  send_length_and_packet connfd packet = do
    guard (leb (length packet) max_packet) refuse_to_send
    io.sendn connfd (htonl (length packet))
    io.sendn connfd packet

  unfoldable pub recv_length_and_packet : ℕ → M io.World Bytes
  recv_length_and_packet connfd = do
    n ← io.recvn connfd 4
    guard (leb (ntohl n) max_packet) refuse_to_recv
    io.recvn connfd (ntohl n)

-- The code points of a text: its bytes, if it is ASCII.
abbrev pub codes : String → Bytes
codes String.[] = []
codes (String.◌∷◌ c s) = code c ∷ codes s

abbrev pub dns_head : Bytes
dns_head = codes "__m_str_dns_head_32__snakesocks_"

unfoldable pub assemble_dns_query : Bytes → ClientQuery
assemble_dns_query domain = record {
  destination_ip = replicate 16 0;
  destination_port = 0;
  payload = record { null_terminated = true; str = dns_head ++ (domain ++ (0 ∷ [])) };
}

-- `for(byte : bytes) if(byte != 0) return false; return true;`
unfoldable pub all_zero : Bytes → Bool
all_zero [] = true
all_zero (b ∷ bs) = if b == 0 then all_zero bs else false

unfoldable pub is_dns_query : ClientQuery → Bool
unfolding all_zero
is_dns_query cq = all_zero cq.destination_ip

-- The C string at the front of a buffer; without a zero byte its reader leaves the buffer.
unfoldable pub c_string : Bytes → Result Bytes
c_string [] = overrun
c_string (b ∷ bs) = if b == 0 then ok [] else elim (c_string bs) [ ok s ↦ ok (b ∷ s) | r ↦ r ]

unfoldable pub get_domain_from_dns_query : ClientQuery → Result Bytes
get_domain_from_dns_query cq =
    if leb (length cq.payload.str) 32 then ok [] else c_string (drop 32 cq.payload.str)

-- `std::to_string` of a uint32_t, which has at most ten digits.
unfoldable pub digits : ℕ → ℕ → Bytes
digits zero n = []
digits (suc fuel) n =
    let front = digits fuel (n / 10) in
    if ltb n 10 then (48 + n) ∷ [] else front ++ ((48 + n % 10) ∷ [])

unfoldable pub to_string : ℕ → Bytes
unfolding digits
to_string n = digits 10 n

-- Each byte of the address in decimal, with a separator behind it.
unfoldable pub dump : ℕ → Bytes → Bytes
dump separator [] = []
dump separator (b ∷ bs) = to_string b ++ (separator ∷ dump separator bs)

unfoldable pub pop_back : Bytes → Bytes
pop_back [] = []
pop_back (b ∷ []) = []
pop_back (b ∷ c ∷ bs) = b ∷ pop_back (c ∷ bs)

unfoldable pub ip_array_to_str : Bytes → Bytes
unfolding all_zero dump to_string pop_back
ip_array_to_str iparr =
    if all_zero (drop 4 iparr)
    then pop_back (dump b'.' (take 4 iparr))
    else pop_back (dump b':' (take 16 iparr))

-- `sprintf(tmp, "%u ", byte)` for each byte, and a line end.
unfoldable pub print_data : Bytes → Bytes
unfolding dump to_string
print_data bytes = dump b' ' bytes ++ (0x0a ∷ [])
