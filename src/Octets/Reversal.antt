-- ===== src/Octets/Reversal.antt =====
-- The loop of src/modules/module_util/octet_order.c reverses what it is given, and so its conversions
-- undo themselves.
use snakesocks.Base.{
  ℕ, zero, suc, ◌+◌, ◌-◌, ◌*◌, ◌/◌, ◌^◌, ◌≤◌, ◌<◌, ◌≡◌, ◌≢◌, ◌⊎◌, inl, inr, refl, ap, ◌∙◌, [], ◌∷◌,
  arith, length, get_or, set,
}
use snakesocks.Io.{Bytes}
use snakesocks.NetLib.{htonl}
use snakesocks.SimpleProxy.{bytes_32}
use snakesocks.Octets.{
  swap_at, swap_rounds, host_to_network_octet, host_to_network_short, network_to_host_short,
  host_to_network_int, network_to_host_int, host_to_network_long, network_to_host_long,
  check_host_octet_order,
}

length-set : (bs : Bytes) (i v : ℕ) → length (set bs i v) ≡ length bs
length-set [] i v = refl
length-set (b ∷ bs) zero v = refl
length-set (b ∷ bs) (suc i) v = ap suc (length-set bs i v)

get_or-set : (bs : Bytes) (i v : ℕ) → i < length bs → get_or (set bs i v) i 0 ≡ v
get_or-set [] i v h = absurd (omega arith)
get_or-set (b ∷ bs) zero v h = refl
get_or-set (b ∷ bs) (suc i) v h = get_or-set bs i v (omega arith)

get_or-set_other : (bs : Bytes) (i j v : ℕ) → i ≢ j → get_or (set bs i v) j 0 ≡ get_or bs j 0
get_or-set_other [] i j v ne = refl
get_or-set_other (b ∷ bs) zero zero v ne = absurd (ne refl)
get_or-set_other (b ∷ bs) zero (suc j) v ne = refl
get_or-set_other (b ∷ bs) (suc i) zero v ne = refl
get_or-set_other (b ∷ bs) (suc i) (suc j) v ne = get_or-set_other bs i j v (λ e. ne (ap suc e))

module _ (bs : Bytes) (i : ℕ) (h : i < length bs) where
  length-swap_at : length (swap_at (length bs) i bs) ≡ length bs
  unfolding swap_at
  length-swap_at = length-set _ _ _ ∙ length-set bs i _

  swap_at-there : get_or (swap_at (length bs) i bs) (length bs - 1 - i) 0 ≡ get_or bs i 0
  unfolding swap_at
  swap_at-there =
      get_or-set _ (length bs - 1 - i) _
        (omega (arith, length-set bs i (get_or bs (length bs - 1 - i) 0)))

  swap_at-here :
      i ≢ (length bs - 1 - i)
      → get_or (swap_at (length bs) i bs) i 0 ≡ get_or bs (length bs - 1 - i) 0
  unfolding swap_at
  swap_at-here ne =
      get_or-set_other _ (length bs - 1 - i) i _ (λ e. ne (omega arith))
      ∙ get_or-set bs i (get_or bs (length bs - 1 - i) 0) h

  swap_at-elsewhere :
      (j : ℕ)
      → i ≢ j
      → (length bs - 1 - i) ≢ j
      → get_or (swap_at (length bs) i bs) j 0 ≡ get_or bs j 0
  unfolding swap_at
  swap_at-elsewhere j here there =
      get_or-set_other _ (length bs - 1 - i) j _ there
      ∙ get_or-set_other bs i j (get_or bs (length bs - 1 - i) 0) here

position :
    (len i j : ℕ)
    → i ≤ j
    → j + i < len
    → (j ≡ i) ⊎ ((j ≡ len - 1 - i) ⊎ ((suc i ≤ j) × (j + suc i < len)))
position len i j a b = omega arith

-- The rounds from `i` on exchange each octet that is at least `i` away from both ends.
swap_rounds-at :
    (left i : ℕ) (bs : Bytes) (j : ℕ)
    → 2 * (left + i) ≤ length bs
    → length bs ≤ 2 * (left + i) + 1
    → (length (swap_rounds left (length bs) i bs) ≡ length bs)
      × (i ≤ j
          → j + i < length bs
          → get_or (swap_rounds left (length bs) i bs) j 0 ≡ get_or bs (length bs - 1 - j) 0)
      × ((j < i) ⊎ (length bs ≤ j + i)
          → get_or (swap_rounds left (length bs) i bs) j 0 ≡ get_or bs j 0)
unfolding swap_rounds
swap_rounds-at zero i bs j le ge =
    (refl, (λ a b. ap (λ k. get_or bs k 0) (omega arith)), (λ out. refl))
swap_rounds-at (suc left) i bs j le ge =
    let len = length bs in
    let next = swap_at len i bs in
    let h : i < length bs = omega arith in
    let same = length-swap_at bs i h in
    let (size, inside, outside) =
      rw same at (swap_rounds-at left (suc i) next j (omega (arith, same)) (omega (arith, same))) in
    (
      size,
      λ a b. elim (position len i j a b) [
        | inl first ↦
            outside (inl (omega arith))
            ∙ ap (λ k. get_or next k 0) first
            ∙ swap_at-here bs i h (λ e. omega arith)
            ∙ ap (λ k. get_or bs k 0) (omega arith)
        | inr (inl last) ↦
            outside (inr (omega arith))
            ∙ ap (λ k. get_or next k 0) last
            ∙ swap_at-there bs i h
            ∙ ap (λ k. get_or bs k 0) (omega arith)
        | inr (inr (after, before)) ↦
            inside after before
            ∙ swap_at-elsewhere bs i h (len - 1 - j) (λ e. omega arith) (λ e. omega arith)
      ],
      λ out.
          outside (omega arith) ∙ swap_at-elsewhere bs i h j (λ e. omega arith) (λ e. omega arith),
    )

reversed :
    (bs : Bytes) (j : ℕ)
    → (length (host_to_network_octet bs) ≡ length bs)
      × (0 ≤ j
          → j + 0 < length bs
          → get_or (host_to_network_octet bs) j 0 ≡ get_or bs (length bs - 1 - j) 0)
      × ((j < 0) ⊎ (length bs ≤ j + 0) → get_or (host_to_network_octet bs) j 0 ≡ get_or bs j 0)
unfolding host_to_network_octet check_host_octet_order
reversed bs j = swap_rounds-at (length bs / 2) 0 bs j (omega arith) (omega arith)

-- Each octet of the result is the one as far from the other end.
pub host_to_network_octet-reverses :
    (bs : Bytes) (j : ℕ)
    → j < length bs
    → (length (host_to_network_octet bs) ≡ length bs)
      × (get_or (host_to_network_octet bs) j 0 ≡ get_or bs (length bs - 1 - j) 0)
      × (get_or (host_to_network_octet (host_to_network_octet bs)) j 0 ≡ get_or bs j 0)
unfolding host_to_network_octet check_host_octet_order bytes_32
host_to_network_octet-reverses bs j h =
    let (size, at_, _) = reversed bs j in
    let (_, again, _) = reversed (host_to_network_octet bs) j in
    (
      size,
      at_ (omega arith) (omega arith),
      again (omega arith) (omega (arith, size))
          ∙ ap (λ k. get_or (host_to_network_octet bs) (k - 1 - j) 0) size
          ∙ (reversed bs (length bs - 1 - j)).1 (omega arith) (omega arith)
          ∙ ap (λ k. get_or bs k 0) (omega arith),
    )

short_twice : (a : ℕ) → a < 2 ^ 16 → network_to_host_short (host_to_network_short a) ≡ a
unfolding network_to_host_short
short_twice a h = omega arith

int_twice : (a : ℕ) → a < 2 ^ 32 → network_to_host_int (host_to_network_int a) ≡ a
unfolding network_to_host_int
int_twice a h = omega arith

four :
    {p q r s p' q' r' s' : ℕ}
    → p ≡ p'
    → q ≡ q'
    → r ≡ r'
    → s ≡ s'
    → (p ∷ q ∷ r ∷ s ∷ []) ≡ (p' ∷ q' ∷ r' ∷ s' ∷ [])
four e f g h = cc

int-htonl : (a : ℕ) → a < 2 ^ 32 → bytes_32 (host_to_network_int a) ≡ htonl a
unfolding network_to_host_int bytes_32 htonl
int-htonl a h = four (omega arith) (omega arith) (omega arith) (omega arith)

long_twice : (a : ℕ) → a < 2 ^ 64 → network_to_host_long (host_to_network_long a) ≡ a
unfolding network_to_host_long
long_twice a h = omega arith

-- In memory, an int that is converted holds the four octets that NetLib::htonl sends, most significant
-- first; converted back it is the number again, and so are numbers of 16 and of 64 bits.
pub network_to_host_int-host_to_network_int :
    (a b c : ℕ)
    → a < 2 ^ 16
    → b < 2 ^ 32
    → c < 2 ^ 64
    → (bytes_32 (host_to_network_int b) ≡ htonl b)
      × (network_to_host_int (host_to_network_int b) ≡ b)
      × (network_to_host_short (host_to_network_short a) ≡ a)
      × (network_to_host_long (host_to_network_long c) ≡ c)
network_to_host_int-host_to_network_int a b c ha hb hc =
    (int-htonl b hb, int_twice b hb, short_twice a ha, long_twice c hc)
