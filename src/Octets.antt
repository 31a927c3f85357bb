-- ===== src/Octets.antt =====
-- src/modules/module_util/octet_order.c, on a little-endian machine: the conversions between its order of
-- octets and the network's.
pub mod Reversal
use snakesocks.Base.{
  ℕ, zero, suc, ◌+◌, ◌-◌, ◌*◌, ◌/◌, ◌%◌, ◌^◌, [], ◌∷◌, length, get_or, set, ◌==◌, if◌then◌else◌,
}
use snakesocks.Io.{Bytes}
use snakesocks.SimpleProxy.{bytes_16, bytes_32, at_16, at_32}

-- The first octet of 0x00ffff01 in memory.
unfoldable pub check_host_octet_order : ℕ
unfolding bytes_32
check_host_octet_order = get_or (bytes_32 0x00ffff01) 0 0

-- One round of the loop, which swaps the octets at `i` and `len - 1 - i`.
unfoldable pub swap_at : ℕ → ℕ → Bytes → Bytes
swap_at len i tmpdst =
    set (set tmpdst i (get_or tmpdst (len - 1 - i) 0)) (len - 1 - i) (get_or tmpdst i 0)

-- The rounds from `i` on, as many as are left.
unfoldable pub swap_rounds : ℕ → ℕ → ℕ → Bytes → Bytes
unfolding swap_at
swap_rounds zero len i dst = dst
swap_rounds (suc left) len i dst = swap_rounds left len (suc i) (swap_at len i dst)

unfoldable pub host_to_network_octet : Bytes → Bytes
unfolding check_host_octet_order swap_rounds
host_to_network_octet dst =
    if check_host_octet_order == 0 then dst else swap_rounds (length dst / 2) (length dst) 0 dst

unfoldable pub network_to_host_octet : Bytes → Bytes
unfolding host_to_network_octet
network_to_host_octet dst = host_to_network_octet dst

unfoldable pub host_to_network_short : ℕ → ℕ
unfolding host_to_network_octet bytes_16 at_16
host_to_network_short a = at_16 (host_to_network_octet (bytes_16 a)) 0

unfoldable pub network_to_host_short : ℕ → ℕ
unfolding host_to_network_short
network_to_host_short a = host_to_network_short a

unfoldable pub host_to_network_int : ℕ → ℕ
unfolding host_to_network_octet bytes_32 at_32
host_to_network_int a = at_32 (host_to_network_octet (bytes_32 a)) 0

unfoldable pub network_to_host_int : ℕ → ℕ
unfolding host_to_network_int
network_to_host_int a = host_to_network_int a

-- A uint64_t in memory.
unfoldable pub bytes_64 : ℕ → Bytes
bytes_64 n =
    (n % 256)
    ∷ (n / 256 % 256)
    ∷ (n / 2 ^ 16 % 256)
    ∷ (n / 2 ^ 24 % 256)
    ∷ (n / 2 ^ 32 % 256)
    ∷ (n / 2 ^ 40 % 256)
    ∷ (n / 2 ^ 48 % 256)
    ∷ (n / 2 ^ 56 % 256)
    ∷ []

unfoldable pub at_64 : Bytes → ℕ
unfolding at_32
at_64 bs = at_32 bs 0 + at_32 bs 4 * 2 ^ 32

unfoldable pub host_to_network_long : ℕ → ℕ
unfolding host_to_network_octet bytes_64 at_64
host_to_network_long a = at_64 (host_to_network_octet (bytes_64 a))

unfoldable pub network_to_host_long : ℕ → ℕ
unfolding host_to_network_long
network_to_host_long a = host_to_network_long a
