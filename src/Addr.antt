-- ===== src/Addr.antt =====
-- The class addr_info of src/native/src/socks5.hpp. `type` is a field of the source; `bytes` is its
-- `data`, a string of 4 or 16 bytes or of a domain's characters.
pub mod Laws
use Prim.Native.Nat.{◌%◌}
use snakesocks.Base.{
  ltb, ◌-◌, ℕ, ◌+◌, ◌%◌, Bool, true, false, List, [], ◌∷◌, ◌++◌, ◌||◌, length, take, drop,
  replicate, ◌==◌, if◌then◌else◌,
}
use snakesocks.Io.{
  Bytes, Error, incorrect_type, null_addr, unresolved_domain, no_port, Result, ok, thrown,
}
use snakesocks.Module.{BinarySafeString, ClientQuery}
use snakesocks.NetLib.{all_zero, assemble_dns_query, to_string, codes, dump}

pub data AddrType : Type 0 where
  null ipv4 ipv6 domain : AddrType

pub record AddrInfo : Type 0 where
  pub type : AddrType
  pub bytes : Bytes
  pub port : ℕ

-- `set`, at an array of 4 bytes, an array of 16 bytes or a string; `setport` assigns the field.
unfoldable pub set_ipv4 : Bytes → ℕ → AddrInfo
set_ipv4 v4addr port = record { type = ipv4; bytes = v4addr; port = port }

unfoldable pub set_ipv6 : Bytes → ℕ → AddrInfo
set_ipv6 v6addr port = record { type = ipv6; bytes = v6addr; port = port }

unfoldable pub set_domain : Bytes → ℕ → AddrInfo
set_domain name port = record { type = domain; bytes = name; port = port }

abbrev pub is_null : AddrType → Bool
is_null null = true
is_null ipv4 = false
is_null ipv6 = false
is_null domain = false

-- `std::accumulate(data.cbegin(), data.cend(), (char)0)`: the sum is kept in a char.
unfoldable pub accumulate : ℕ → Bytes → ℕ
accumulate sum [] = sum
accumulate sum (b ∷ bs) = accumulate ((sum + b) % 256) bs

-- `operator!`
unfoldable pub is_unset : AddrInfo → Bool
is_unset a = accumulate 0 a.bytes == 0 || is_null a.type

-- The 6to4 of this program: an address whose last twelve bytes are zero stands for its first four.
unfoldable pub try_6to4 : AddrInfo → Result AddrInfo
unfolding all_zero
try_6to4 a = elim a.type [
  | ipv6 ↦
      ok (if all_zero (drop 4 a.bytes) then record a { bytes = take 4 a.bytes; type = ipv4 } else a)
  | _ ↦ thrown incorrect_type
]

abbrev pub no_payload : BinarySafeString
no_payload = record { null_terminated = false; str = [] }

-- `client_query cq{ {0}, port }`, once the port is not zero, with the address copied in.
unfoldable pub query_to : Bytes → ℕ → Result ClientQuery
query_to ip port =
    if port == 0
    then thrown no_port
    else ok (record { destination_ip = ip; destination_port = port; payload = no_payload })

unfoldable pub to_query_template : AddrInfo → Result ClientQuery
unfolding query_to
to_query_template a = elim a.type [
  | null ↦ thrown null_addr
  | domain ↦ thrown unresolved_domain
  | ipv4 ↦ query_to (take 4 a.bytes ++ replicate 12 0) a.port
  | ipv6 ↦ query_to (take 16 a.bytes) a.port
]

unfoldable pub make_dns_query_body : AddrInfo → ClientQuery
unfolding assemble_dns_query
make_dns_query_body a = record (assemble_dns_query a.bytes) { destination_port = a.port }

-- `std::to_string((int) e)` of a char, and a bar, for each.
unfoldable pub print_chars : Bytes → Bytes
unfolding to_string
print_chars [] = []
print_chars (e ∷ es) =
    let rest = print_chars es in
    (if ltb e 128 then to_string e else b'-' ∷ to_string (256 - e)) ++ (b'|' ∷ rest)

unfoldable pub print : AddrInfo → Bytes
unfolding print_chars
print a = elim a.type [
  | null ↦ codes "null"
  | ipv4 ↦ codes "ipv4 " ++ print_chars a.bytes
  | ipv6 ↦ codes "ipv6 " ++ print_chars a.bytes
  | domain ↦ codes "domain " ++ a.bytes
]
