-- ===== src/Addr/Laws.antt =====
-- What the operations of addr_info, in src/native/src/socks5.hpp, compute, and what the server sees
-- of an address that the client sends.
use snakesocks.Base.{
  ℕ, zero, suc, ◌+◌, ◌%◌, ◌<◌, ◌≡◌, ◌≢◌, ◌↔◌, ◌⊎◌, refl, true, [], ◌∷◌, ◌++◌, ◌&&◌, arith,
  replicate, ==_ne, if◌then◌else◌, All,
}
use snakesocks.Io.{IsByte, Bytes, ok}
use snakesocks.Module.{ClientQuery}
use snakesocks.NetLib.{all_zero, is_dns_query, ip_array_to_str, get_domain_from_dns_query}
use snakesocks.NetLib.Text.{read_groups, read-ip_array_to_str}
use snakesocks.NetLib.Dns.{IsNonzero, get_domain-assemble}
use snakesocks.Addr.{
  null, AddrInfo, set_ipv4, set_ipv6, set_domain, accumulate, is_unset, no_payload, try_6to4,
  to_query_template, make_dns_query_body,
}

unfoldable pub sum : Bytes → ℕ
sum [] = 0
sum (b ∷ bs) = b + sum bs

accumulate-sum : (s : ℕ) (bs : Bytes) → s < 256 → accumulate s bs ≡ (s + sum bs) % 256
unfolding accumulate sum
accumulate-sum s [] h = omega arith
accumulate-sum s (b ∷ bs) h = omega (arith, accumulate-sum ((s + b) % 256) bs (omega arith))

-- `!addr` holds exactly for a null address and for one whose bytes add up to a multiple of 256,
-- which is not only the address of zeros.
pub is_unset_iff :
    (a : AddrInfo) → (is_unset a ≡ true) ↔ ((sum a.bytes % 256 ≡ 0) ⊎ (a.type ≡ null))
unfolding is_unset
is_unset_iff a = ground (arith, accumulate-sum 0 a.bytes (omega arith))

pub all_zero-replicate : (n : ℕ) → all_zero (replicate n 0) ≡ true
unfolding all_zero
all_zero-replicate zero = refl
all_zero-replicate (suc n) = all_zero-replicate n

-- An IPv4 address that travels in the sixteen bytes of an IPv6 address comes back, and any other
-- IPv6 address stays what it is.
pub try_6to4_lem :
    (a b c d port : ℕ) (rest : Bytes)
    → try_6to4 (set_ipv6 (a ∷ b ∷ c ∷ d ∷ rest) port)
      ≡ ok (
          if all_zero rest
          then set_ipv4 (a ∷ b ∷ c ∷ d ∷ []) port
          else set_ipv6 (a ∷ b ∷ c ∷ d ∷ rest) port)
unfolding try_6to4 set_ipv4 set_ipv6
try_6to4_lem a b c d port rest = ground arith

all_zero-append : (xs ys : Bytes) → all_zero (xs ++ ys) ≡ (all_zero xs && all_zero ys)
unfolding all_zero
all_zero-append [] ys = refl
all_zero-append (x ∷ xs) ys = ground (arith, all_zero-append xs ys)

-- With a port other than 0, the query for an IPv4 address names that address to the server in dotted
-- decimal, with its port, and the server takes it for a DNS query exactly if the address is 0.0.0.0.
pub to_query_template-ipv4 :
    (a b c d port : ℕ)
    → All IsByte (a ∷ b ∷ c ∷ d ∷ [])
    → port ≢ 0
    → (q : ClientQuery) × (to_query_template (set_ipv4 (a ∷ b ∷ c ∷ d ∷ []) port) ≡ ok q)
      × (q.destination_port ≡ port)
      × (read_groups b'.' 0 (ip_array_to_str q.destination_ip) ≡ a ∷ b ∷ c ∷ d ∷ [])
      × (is_dns_query q ≡ all_zero (a ∷ b ∷ c ∷ d ∷ []))
unfolding to_query_template set_ipv4 is_dns_query
to_query_template-ipv4 a b c d port h hp = (
  record {
    destination_ip = a ∷ b ∷ c ∷ d ∷ replicate 12 0;
    destination_port = port;
    payload = no_payload;
  },
  rw (==_ne port 0 hp) refl,
  refl,
  read-ip_array_to_str a b c d (replicate 12 0) refl (omega arith),
  ground (arith, all_zero-append (a ∷ b ∷ c ∷ d ∷ []) (replicate 12 0), all_zero-replicate 12),
)

-- The server reads the domain back from the query that the client makes for it.
pub make_dns_query_body_lem :
    (name : Bytes) (port : ℕ)
    → All IsNonzero name
    → (is_dns_query (make_dns_query_body (set_domain name port)) ≡ true)
      × (get_domain_from_dns_query (make_dns_query_body (set_domain name port)) ≡ ok name)
unfolding make_dns_query_body set_domain is_dns_query get_domain_from_dns_query
make_dns_query_body_lem name port h =
    unfold get_domain_from_dns_query is_dns_query in get_domain-assemble name h
