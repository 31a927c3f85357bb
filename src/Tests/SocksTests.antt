-- ===== src/Tests/SocksTests.antt =====
-- src/native/src/socks5.cc and socks5.hpp on concrete inputs.
use mathlib.Core.List.{Mem}
use snakesocks.Base.{ℕ, ◌%◌, ◌≡◌, ◌↔◌, ◌⊎◌, refl, true, [], ◌∷◌, arith}
use snakesocks.Io.{ok, overrun}
use snakesocks.Io.Pipes.{pipe_io, pipe_streams, piped, Pipes}
use snakesocks.NetLib.{codes}
use snakesocks.Addr.{AddrInfo, set_ipv4, set_domain, is_unset, accumulate, null, ipv4}
use snakesocks.Addr.Laws.{sum, is_unset_iff}
use snakesocks.Socks5.{handshake_pkgs, connect_pkgs}
use snakesocks.Socks5.Handshake.{handshake_pkgs_lem, handshake_pkgs-overrun}
use snakesocks.Socks5.Connect.{connect_pkgs_lem, connect_pkgs-overrun, named, packet}

-- 100.100.56.0 counts as unset: its bytes add up to 256.
unset_address : is_unset (set_ipv4 (100 ∷ 100 ∷ 56 ∷ 0 ∷ []) 80) ≡ true
unfolding is_unset accumulate set_ipv4
unset_address = refl

abbrev lan : AddrInfo
lan = record { type = ipv4; bytes = 10 ∷ 0 ∷ 0 ∷ 1 ∷ []; port = 80 }

is_unset_iff_example : (is_unset lan ≡ true) ↔ ((sum lan.bytes % 256 ≡ 0) ⊎ (lan.type ≡ null))
is_unset_iff_example = is_unset_iff lan

handshake_pkgs_example :
    (w' : Pipes) × (reply : ℕ) × (handshake_pkgs pipe_io 0 (piped (5 ∷ 2 ∷ 1 ∷ 0 ∷ 5 ∷ []))
      ≡ (ok tt, w'))
    × (w'.inbox 0 ≡ 5 ∷ [])
    × (w'.outbox 0 ≡ 5 ∷ reply ∷ [])
    × ((reply ≡ 0) ↔ Mem {A = ℕ} 0 (1 ∷ 0 ∷ []))
    × ((reply ≡ 255) ↔ ¬ Mem {A = ℕ} 0 (1 ∷ 0 ∷ []))
handshake_pkgs_example =
    handshake_pkgs_lem pipe_io pipe_streams 0 (1 ∷ 0 ∷ []) (5 ∷ []) (piped (5 ∷ 2 ∷ 1 ∷ 0 ∷ 5 ∷ []))
      refl (omega arith) refl

handshake_pkgs-overrun_example : (handshake_pkgs pipe_io 0 (piped (5 ∷ 200 ∷ 0 ∷ []))).0 ≡ overrun
handshake_pkgs-overrun_example =
    handshake_pkgs-overrun pipe_io pipe_streams 0 200 (0 ∷ []) (piped (5 ∷ 200 ∷ 0 ∷ [])) refl
      (omega arith)

connect_pkgs_example :
    (w' : Pipes) × (connect_pkgs pipe_io 0 (piped (5 ∷ 1 ∷ 0 ∷ 3 ∷ 2 ∷ 97 ∷ 98 ∷ 1 ∷ 187 ∷ 22 ∷ []))
      ≡ (ok (set_domain (codes "ab") 443), w'))
    × (w'.inbox 0 ≡ 22 ∷ [])
    × (w'.outbox 0 ≡ packet 0 0 (set_domain (codes "ab") 443))
unfolding set_domain
connect_pkgs_example =
    connect_pkgs_lem pipe_io pipe_streams 0 (set_domain (codes "ab") 443) 0 (22 ∷ [])
      (piped (5 ∷ 1 ∷ 0 ∷ 3 ∷ 2 ∷ 97 ∷ 98 ∷ 1 ∷ 187 ∷ 22 ∷ []))
      (named (codes "ab") 443 (omega arith) (omega arith)) refl refl

connect_pkgs-overrun_example :
    (connect_pkgs pipe_io 0 (piped (5 ∷ 1 ∷ 0 ∷ 3 ∷ 130 ∷ []))).0 ≡ overrun
connect_pkgs-overrun_example =
    connect_pkgs-overrun pipe_io pipe_streams 0 1 0 130 [] (piped (5 ∷ 1 ∷ 0 ∷ 3 ∷ 130 ∷ [])) refl
      (omega arith) (omega arith)
