-- ===== src/SimpleProxy/Key.antt =====
-- The byte of key that src/modules/simple_proxy/simple_proxy.c combines with each byte of a packet: it
-- is a byte, it keeps the length, and applied twice it gives the packet back.
use Prim.Native.Nat.{bit_xor}
use snakesocks.Base.{
  ℕ, zero, suc, ◌+◌, ◌%◌, ◌<◌, ◌≤◌, ◌⊎◌, inl, inr, if◌then◌else◌, false, ◌≡◌, refl, ap, ◌∙◌, Bool,
  true, [], ◌∷◌, arith, All, length, ◌==◌, ==_iff, ltb, ltb→lt,
}
use snakesocks.Io.{IsByte, Bytes}
use snakesocks.Addr.{accumulate}
use snakesocks.SimpleProxy.{xor_all, simple_hash}

-- A test that holds for every byte up to some bound.
passes_to : (ℕ → Bool) → ℕ → Bool
passes_to test zero = test 0
passes_to test (suc last) = if test (suc last) then passes_to test last else false

below_or_top : (b last : ℕ) → b ≤ suc last → (b ≤ last) ⊎ (b ≡ suc last)
below_or_top b last le = omega arith

passes_to-at :
    (test : ℕ → Bool) (last b : ℕ) → b ≤ last → passes_to test last ≡ true → test b ≡ true
unfolding passes_to
passes_to-at test zero b le every = ap test (omega arith) ∙ every
passes_to-at test (suc last) b le every = elim (below_or_top b last le) [
  | inl below ↦ ground (arith, passes_to-at test last b below)
  | inr top ↦ ap test top ∙ ground arith
]

xor_table : passes_to (λ k. passes_to (λ x. bit_xor (bit_xor x k) k == x) 255) 255 ≡ true
unfolding passes_to
xor_table = refl

xor_twice : (x k : ℕ) → x < 256 → k < 256 → bit_xor (bit_xor x k) k ≡ x
xor_twice x k hx hk =
    let row =
      passes_to-at (λ k. passes_to (λ x. bit_xor (bit_xor x k) k == x) 255) 255 k (omega arith)
        xor_table in
    (==_iff _ x).0 (passes_to-at (λ x. bit_xor (bit_xor x k) k == x) 255 x (omega arith) row)

xor_bytes : passes_to (λ k. passes_to (λ x. ltb (bit_xor x k) 256) 255) 255 ≡ true
unfolding passes_to
xor_bytes = refl

xor-IsByte : (x k : ℕ) → x < 256 → k < 256 → bit_xor x k < 256
xor-IsByte x k hx hk =
    let row =
      passes_to-at (λ k. passes_to (λ x. ltb (bit_xor x k) 256) 255) 255 k (omega arith)
        xor_bytes in
    let below = passes_to-at (λ x. ltb (bit_xor x k) 256) 255 x (omega arith) row in
    ltb→lt (bit_xor x k) 256 below

-- Bytes stay bytes.
pub xor_all-IsByte :
    (key : ℕ) (bs : Bytes) → key < 256 → All IsByte bs → All IsByte (xor_all key bs)
unfolding xor_all
xor_all-IsByte key [] hk h = tt
xor_all-IsByte key (b ∷ bs) hk h = (xor-IsByte b key h.0 hk, xor_all-IsByte key bs hk h.1)

-- The key applied twice to bytes gives the bytes.
pub xor_all_twice :
    (key : ℕ) (bs : Bytes) → key < 256 → All IsByte bs → xor_all key (xor_all key bs) ≡ bs
unfolding xor_all
xor_all_twice key [] hk h = refl
xor_all_twice key (b ∷ bs) hk h =
    rw (xor_twice b key h.0 hk) (ap (◌∷◌ b) (xor_all_twice key bs hk h.1))

pub length-xor_all : (key : ℕ) (bs : Bytes) → length (xor_all key bs) ≡ length bs
unfolding xor_all
length-xor_all key [] = refl
length-xor_all key (b ∷ bs) = ap suc (length-xor_all key bs)

accumulate-lt : (sum : ℕ) (bs : Bytes) → sum < 256 → accumulate sum bs < 256
unfolding accumulate
accumulate-lt sum [] h = h
accumulate-lt sum (b ∷ bs) h = accumulate-lt ((sum + b) % 256) bs (omega arith)

pub simple_hash-lt : (bs : Bytes) → simple_hash bs < 256
unfolding simple_hash
simple_hash-lt bs = accumulate-lt 0 bs (omega arith)
