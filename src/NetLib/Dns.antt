-- ===== src/NetLib/Dns.antt =====
-- The DNS queries of src/native/src/lib/NetLib.hpp: what is assembled is recognised and read back.
use snakesocks.Base.{ℕ, ◌≡◌, refl, ◌≢◌, true, [], ◌∷◌, ◌++◌, arith, All, length-append, ==_ne}
use snakesocks.Io.{Bytes, ok}
use snakesocks.NetLib.{assemble_dns_query, is_dns_query, c_string, get_domain_from_dns_query}

abbrev pub IsNonzero : ℕ → Type 0
IsNonzero b = b ≢ 0

-- A C string is read up to its zero byte, whatever follows.
pub c_string-append : (s rest : Bytes) → All IsNonzero s → c_string (s ++ (0 ∷ rest)) ≡ ok s
unfolding c_string
c_string-append [] rest h = refl
c_string-append (b ∷ bs) rest h = rw (==_ne b 0 h.0, c_string-append bs rest h.1) refl

-- Whatever the domain, as long as it has no zero byte, the query that is assembled for it counts as
-- a DNS query, and the domain read from it is the domain.
pub get_domain-assemble :
    (domain : Bytes)
    → All IsNonzero domain
    → (is_dns_query (assemble_dns_query domain) ≡ true)
      × (get_domain_from_dns_query (assemble_dns_query domain) ≡ ok domain)
unfolding assemble_dns_query is_dns_query get_domain_from_dns_query
get_domain-assemble domain h =
    (refl, ground (arith, c_string-append domain [] h, length-append domain (0 ∷ [])))
