-- ===== src/NetLib/Text.antt =====
-- ip_array_to_str and printData of src/native/src/lib/NetLib.hpp and NetLib.cc.
use snakesocks.Base.{
  take_all, ℕ, zero, suc, ◌+◌, ◌-◌, ◌*◌, ◌/◌, ◌%◌, ◌^◌, ◌<◌, ◌≡◌, ◌≢◌, refl, ap, ◌∙◌, List, [], ◌∷◌,
  ◌++◌, arith, append_assoc, length, All, ltb, ◌==◌, ==_ne, ==_refl, if◌then◌else◌, Bool-cases, inl,
  inr, lt→ltb,
}
use native.Mathlib.Nat.{pow-suc}
use snakesocks.Io.{IsByte, Bytes}
use snakesocks.NetLib.{digits, to_string, dump, pop_back, all_zero, ip_array_to_str}

-- A reader of decimal groups: `group` is the number read so far.
pub read_groups : ℕ → ℕ → Bytes → List ℕ
read_groups separator group [] = group ∷ []
read_groups separator group (c ∷ cs) =
    let next = read_groups separator 0 cs in
    let more = read_groups separator (group * 10 + (c - 48)) cs in
    if c == separator then group ∷ next else more

-- A separator that is no decimal digit.
abbrev pub IsSeparator : ℕ → Type 0
IsSeparator c = (d : ℕ) → d < 10 → (48 + d) ≢ c

read-digit :
    (separator group d v : ℕ) (rest : Bytes)
    → IsSeparator separator
    → d < 10
    → v ≡ group * 10 + d
    → read_groups separator group ((48 + d) ∷ rest) ≡ read_groups separator v rest
unfolding read_groups
read-digit separator group d v rest hs hd e =
    rw (==_ne (48 + d) separator (hs d hd)) (ap (λ k. read_groups separator k rest) (omega arith))

-- Ten digits are enough for a uint32_t, and so on for every width.
read-digits :
    (fuel separator n : ℕ) (rest : Bytes)
    → IsSeparator separator
    → n < 10 ^ suc fuel
    → read_groups separator 0 (digits (suc fuel) n ++ rest) ≡ read_groups separator n rest
unfolding digits
read-digits zero separator n rest hs h =
    rw (lt→ltb n 10 (omega arith)) (read-digit separator 0 n n rest hs (omega arith) (omega arith))
read-digits (suc fuel) separator n rest hs h = elim (Bool-cases (ltb n 10)) [
  | inl small ↦ rw small (read-digit separator 0 n n rest hs (ground arith) (omega arith))
  | inr big ↦ rw big (
      rw append_assoc (
        read-digits fuel separator (n / 10) ((48 + n % 10) ∷ rest) hs
          (omega (arith, pow-suc 10 (suc fuel)))
        ∙ read-digit separator (n / 10) (n % 10) n rest hs (omega arith) (omega arith)))
]

read-to_string :
    (separator b : ℕ) (rest : Bytes)
    → IsSeparator separator
    → IsByte b
    → read_groups separator 0 (to_string b ++ rest) ≡ read_groups separator b rest
unfolding to_string
read-to_string separator b rest hs h = read-digits 9 separator b rest hs (omega arith)

read-separator :
    (separator b : ℕ) (rest : Bytes)
    → read_groups separator b (separator ∷ rest) ≡ b ∷ read_groups separator 0 rest
unfolding read_groups
read-separator separator b rest = rw (==_refl separator)

-- `pop_back` takes the last separator away.
pop_back-append :
    (xs : Bytes) (y : ℕ) (ys : Bytes) → pop_back (xs ++ (y ∷ ys)) ≡ xs ++ pop_back (y ∷ ys)
unfolding pop_back
pop_back-append [] y ys = refl
pop_back-append (x ∷ []) y ys = refl
pop_back-append (x ∷ x' ∷ xs) y ys = ap (◌∷◌ x) (pop_back-append (x' ∷ xs) y ys)

pop_back-cons :
    (x : ℕ) (xs : Bytes) (y : ℕ) (ys : Bytes)
    → pop_back (x ∷ (xs ++ (y ∷ ys))) ≡ x ∷ pop_back (xs ++ (y ∷ ys))
unfolding pop_back
pop_back-cons x [] y ys = refl
pop_back-cons x (x' ∷ xs) y ys = refl

-- The text of at least one byte, without the separator at its end, has the bytes as its groups.
read-dump :
    (separator b : ℕ) (bs : Bytes)
    → IsSeparator separator
    → All IsByte (b ∷ bs)
    → read_groups separator 0 (pop_back (dump separator (b ∷ bs))) ≡ b ∷ bs
unfolding dump
read-dump separator b [] hs h = rw (pop_back-append (to_string b) separator []) (
    read-to_string separator b (pop_back (separator ∷ [])) hs h.0
    ∙ unfold read_groups pop_back in refl)
read-dump separator b (c ∷ bs) hs h =
    rw
      (
        pop_back-append (to_string b) separator (dump separator (c ∷ bs)),
        pop_back-cons separator (to_string c) separator (dump separator bs),
      )
      (read-to_string separator b _ hs h.0
        ∙ read-separator separator b _
        ∙ ap (◌∷◌ b) (read-dump separator c bs hs h.1))

-- Whatever the 16 bytes of the address: if the last twelve are zero, the text reads back, by its
-- dots, as the first four bytes; otherwise it reads back, by its colons, as all 16 bytes, each in
-- decimal.
pub read-ip_array_to_str :
    (a b c d : ℕ) (rest : Bytes)
    → length rest ≡ 12
    → All IsByte (a ∷ b ∷ c ∷ d ∷ rest)
    → read_groups (if all_zero rest then b'.' else b':') 0 (ip_array_to_str (a ∷ b ∷ c ∷ d ∷ rest))
      ≡ (if all_zero rest then a ∷ b ∷ c ∷ d ∷ [] else a ∷ b ∷ c ∷ d ∷ rest)
unfolding ip_array_to_str
read-ip_array_to_str a b c d rest l h = elim (Bool-cases (all_zero rest)) [
  | inl v4 ↦ rw v4 (read-dump b'.' a (b ∷ c ∷ d ∷ []) (λ k hk. omega arith) (omega arith))
  | inr v6 ↦
      rw (v6, take_all 12 rest (omega arith))
        (read-dump b':' a (b ∷ c ∷ d ∷ rest) (λ k hk. omega arith) h)
]
