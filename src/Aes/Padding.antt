-- ===== src/Aes/Padding.antt =====
-- The padding of src/modules/module_util/aes.c: what is padded, encrypted and decrypted comes back with
-- its own length.
use snakesocks.Base.{
  ℕ, ◌+◌, ◌-◌, ◌%◌, ◌^◌, ◌≤◌, ◌<◌, ◌≡◌, refl, ◌∙◌, zero, suc, [], ◌∷◌, ◌++◌, arith, All, All-append,
  length, get_or, replicate, ltb, lt→ltb, length-append, length-replicate, length-take_le,
  get_or-append, Bool-cases, inl, inr, ==_ne,
}
use snakesocks.Io.{IsByte, Bytes, ok, overrun}
use snakesocks.Aes.{
  BlockCipher, CipherLaws, round_up, pad_key, padded, real_length, mode_fill, aes_encrypt,
  aes_decrypt,
}

length-zeros : (n : ℕ) → length (replicate {A = ℕ} n 0) ≡ n
length-zeros n = length-replicate {A = ℕ} n 0

length-pad_key : (key : Bytes) → length (pad_key key) ≡ 16
unfolding pad_key
length-pad_key key = elim (Bool-cases (ltb (length key) 16)) [
  | inl short ↦
      rw (short, length-append key (replicate (16 - length key) 0), length-zeros (16 - length key))
        (ground arith)
  | inr long ↦ rw long (length-take_le 16 key (ground arith))
]

-- The next multiple of 16 is 1 to 16 bytes away.
pub round_up-bounds :
    (n : ℕ) → (n < round_up n 16) × (round_up n 16 ≤ n + 16) × (round_up n 16 % 16 ≡ 0)
unfolding round_up
round_up-bounds n = (omega arith, omega arith, omega arith)

pub length-padded : (src : Bytes) → length (padded src) ≡ round_up (length src) 16
unfolding padded round_up
length-padded src =
    let delta = round_up (length src) 16 - length src in
    let (above, below, even) = round_up-bounds (length src) in
    rw
      (
        length-append src (replicate (delta - 1) 0 ++ (delta ∷ [])),
        length-append (replicate (delta - 1) 0) (delta ∷ []),
        length-zeros (delta - 1),
      )
      (omega arith)

All-replicate : (n : ℕ) → All IsByte (replicate n 0)
All-replicate zero = tt
All-replicate (suc n) = (omega arith, All-replicate n)

padded-IsByte : (src : Bytes) → All IsByte src → All IsByte (padded src)
unfolding padded
padded-IsByte src h =
    let delta = round_up (length src) 16 - length src in
    let (above, below, even) = round_up-bounds (length src) in
    All-append IsByte src (replicate (delta - 1) 0 ++ (delta ∷ [])) h (
      All-append IsByte (replicate (delta - 1) 0) (delta ∷ []) (All-replicate (delta - 1))
        (omega arith, tt))

last-padded :
    (src : Bytes)
    → get_or (padded src) (round_up (length src) 16 - 1) 0 ≡ round_up (length src) 16 - length src
unfolding padded
last-padded src =
    let delta = round_up (length src) 16 - length src in
    let (above, below, even) = round_up-bounds (length src) in
    get_or-append src (replicate (delta - 1) 0 ++ (delta ∷ [])) (round_up (length src) 16 - 1)
      (delta - 1) 0 (omega arith)
    ∙ get_or-append (replicate (delta - 1) 0) (delta ∷ []) (delta - 1) 0 0
        (omega (arith, length-zeros (delta - 1)))

-- The length is found again as long as it fits a size_t.
real_length-round_up :
    (n : ℕ) → n + 16 < 2 ^ 64 → real_length (round_up n 16) (round_up n 16 - n) ≡ n
unfolding real_length
real_length-round_up n h =
    let (above, below, even) = round_up-bounds n in
    rw (lt→ltb (round_up n 16 - n) 128 (omega arith)) (omega arith)

module _ (cipher : BlockCipher) (laws : CipherLaws cipher) where
  -- In the mode that fills the last block, bytes of any length, encrypted under any key, none too long
  -- for a size_t, decrypt under that key to a buffer that holds them and their padding, with
  -- their own length returned. The output has the length that a caller rounds up to.
  pub aes_decrypt-aes_encrypt :
      (src key : Bytes)
      → All IsByte src
      → length src + 16 < 2 ^ 64
      → (out : Bytes) × (aes_encrypt cipher src key mode_fill ≡ ok out)
        × (aes_decrypt cipher out key mode_fill ≡ ok (padded src, length src))
        × (length out ≡ round_up (length src) 16)
  unfolding aes_encrypt aes_decrypt
  aes_decrypt-aes_encrypt src key h fits =
      let (above, below, even) = round_up-bounds (length src) in
      let (out, e, d, n) =
        laws.decrypt-encrypt (pad_key key) (padded src) (length-pad_key key) (padded-IsByte src h)
          (rw (length-padded src) even) (rw (length-padded src) (omega arith)) in
      let size = n ∙ length-padded src in
      (
        out,
        e,
        rw
            (
              d,
              size,
              ==_ne (round_up (length src) 16) 0 (λ z. omega arith),
              last-padded src,
              real_length-round_up (length src) fits,
            )
            refl,
        size,
      )

  -- Less than one block is decrypted past its end.
  pub aes_decrypt-short :
      (src key : Bytes) → length src < 16 → aes_decrypt cipher src key mode_fill ≡ overrun
  unfolding aes_decrypt
  aes_decrypt-short src key short = rw (laws.decrypt-short (pad_key key) src (omega arith)) refl
