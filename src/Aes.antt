-- ===== src/Aes.antt =====
-- src/modules/module_util/aes.c, which pads what a module encrypts to blocks of 16 bytes. The cipher
-- itself, kokke_aes.c beside it, is another project's library and a parameter.
pub mod FirstBlock
pub mod Padding
use snakesocks.Base.{
  ℕ, ◌+◌, ◌-◌, ◌*◌, ◌/◌, ◌%◌, ◌^◌, ◌≤◌, ◌≡◌, List, [], ◌∷◌, ◌++◌, All, length, get_or, take, drop,
  replicate, ltb, ◌==◌, if◌then◌else◌,
}
use snakesocks.Io.{IsByte, Bytes, Result, ok, thrown, overrun}

-- `AES_ECB_encrypt` and `AES_ECB_decrypt`: a key of 16 bytes, the bytes and, returned, what they write
-- to the output. Their length is that of the list.
pub record BlockCipher : Type 0 where
  pub ecb_encrypt : Bytes → Bytes → Result Bytes
  pub ecb_decrypt : Bytes → Bytes → Result Bytes

-- What the code relies on: bytes that fill one or more blocks are encrypted to as many, which decrypt
-- to them under the same key; less than one block is read and written past its end.
pub record CipherLaws (cipher : BlockCipher) : Type 0 where
  pub decrypt-encrypt :
      (key bs : Bytes)
      → length key ≡ 16
      → All IsByte bs
      → length bs % 16 ≡ 0
      → 16 ≤ length bs
      → (out : Bytes) × (cipher.ecb_encrypt key bs ≡ ok out)
        × (cipher.ecb_decrypt key out ≡ ok bs)
        × (length out ≡ length bs)
  pub decrypt-short : (key bs : Bytes) → length bs + 1 ≤ 16 → cipher.ecb_decrypt key bs ≡ overrun

-- That only the first block is ciphered, as in the kokke_aes.c at hand, whose two functions call
-- `Cipher` and `InvCipher` once.
abbrev pub FirstBlockOnly : BlockCipher → Type 0
FirstBlockOnly cipher =
    (key bs out : Bytes) → cipher.ecb_encrypt key bs ≡ ok out → drop 16 out ≡ drop 16 bs

abbrev pub and_then : {A B : Type 0} → Result A → (A → Result B) → Result B
and_then (ok a) f = f a
and_then (thrown e) f = thrown e
and_then overrun f = overrun

-- The multiple above `base`, `base` itself excluded, and the one below.
unfoldable pub round_up : ℕ → ℕ → ℕ
round_up base mult = base / mult * mult + mult

unfoldable pub round_down : ℕ → ℕ → ℕ
round_down base mult = base / mult * mult

-- The key of 16 bytes, cut or filled with zeros.
unfoldable pub pad_key : Bytes → Bytes
pad_key key = if ltb (length key) 16 then key ++ replicate (16 - length key) 0 else take 16 key

-- The bytes, zeros, and the number of bytes added.
unfoldable pub padded : Bytes → Bytes
unfolding round_up
padded src =
    let delta = round_up (length src) 16 - length src in
    src ++ (replicate (delta - 1) 0 ++ (delta ∷ []))

-- `srclen - result[srclen - 1]` in a size_t, where the character counts as negative from 128 on.
unfoldable pub real_length : ℕ → ℕ → ℕ
real_length srclen last =
    if ltb last 128 then (srclen + 2 ^ 64 - last) % 2 ^ 64 else (srclen + (256 - last)) % 2 ^ 64

abbrev pub mode_fill : ℕ
mode_fill = 0

abbrev pub mode_less : ℕ
mode_less = 1

module _ (cipher : BlockCipher) where
  unfoldable pub aes_encrypt : Bytes → Bytes → ℕ → Result Bytes
  unfolding round_down pad_key padded
  aes_encrypt src key flag =
      let whole = round_down (length src) 16 in
      if flag == mode_fill
      then cipher.ecb_encrypt (pad_key key) (padded src)
      else and_then (cipher.ecb_encrypt (pad_key key) (take whole src))
          (λ out. ok (out ++ drop whole src))

  -- The output buffer and the length returned.
  unfoldable pub aes_decrypt : Bytes → Bytes → ℕ → Result (Bytes × ℕ)
  unfolding round_down pad_key real_length
  aes_decrypt src key flag =
      let n = length src in
      let whole = round_down n 16 in
      if flag == mode_fill
      then and_then (cipher.ecb_decrypt (pad_key key) src)
          (λ out. if n == 0 then overrun else ok (out, real_length n (get_or out (n - 1) 0)))
      else and_then (cipher.ecb_decrypt (pad_key key) (take whole src))
          (λ out. ok (out ++ drop whole src, n))
