-- ===== src/Aes/FirstBlock.antt =====
-- A cipher that meets what src/modules/module_util/aes.c relies on, and that like kokke_aes.c changes
-- the first block alone: it combines each byte of it with one byte of key. The tests run the code on
-- it.
use snakesocks.Base.{
  All-take, Bool-cases, inl, inr, ℕ, zero, suc, ◌≤◌, ◌≡◌, refl, ap, ◌∙◌, sym, [], ◌∷◌, ◌++◌, arith,
  All, length, take, drop, take-append, drop-append, length-append, length-take_le, ltb, lt→ltb,
  ge→ltb, if◌then◌else◌,
}
use snakesocks.Io.{IsByte, Bytes, Result, ok, overrun}
use snakesocks.SimpleProxy.{xor_all, simple_hash}
use snakesocks.SimpleProxy.Key.{xor_all_twice, length-xor_all, simple_hash-lt}
use snakesocks.Aes.{BlockCipher, CipherLaws, FirstBlockOnly}

abbrev pub xor_block : Bytes → Bytes → Bytes
xor_block key bs = xor_all (simple_hash key) (take 16 bs) ++ drop 16 bs

abbrev pub xor_first : Bytes → Bytes → Result Bytes
xor_first key bs = if ltb (length bs) 16 then overrun else ok (xor_block key bs)

abbrev pub first_block : BlockCipher
first_block = record { ecb_encrypt = xor_first; ecb_decrypt = xor_first }

take-drop : (n : ℕ) (xs : Bytes) → take n xs ++ drop n xs ≡ xs
take-drop zero xs = refl
take-drop (suc n) [] = refl
take-drop (suc n) (x ∷ xs) = ap (◌∷◌ x) (take-drop n xs)

length-block :
    (key bs : Bytes) → 16 ≤ length bs → length (xor_all (simple_hash key) (take 16 bs)) ≡ 16
length-block key bs long = length-xor_all (simple_hash key) (take 16 bs) ∙ length-take_le 16 bs long

drop-block : (key bs : Bytes) → 16 ≤ length bs → drop 16 (xor_block key bs) ≡ drop 16 bs
drop-block key bs long =
    let block : Bytes = xor_all (simple_hash key) (take 16 bs) in
    ap (λ k. drop k (block ++ drop 16 bs)) (sym (length-block key bs long))
    ∙ drop-append block (drop 16 bs)

take-block :
    (key bs : Bytes)
    → 16 ≤ length bs
    → take 16 (xor_block key bs) ≡ xor_all (simple_hash key) (take 16 bs)
take-block key bs long =
    let block : Bytes = xor_all (simple_hash key) (take 16 bs) in
    ap (λ k. take k (block ++ drop 16 bs)) (sym (length-block key bs long))
    ∙ take-append block (drop 16 bs)

length-xor_block : (key bs : Bytes) → 16 ≤ length bs → length (xor_block key bs) ≡ length bs
length-xor_block key bs long =
    let block : Bytes = xor_all (simple_hash key) (take 16 bs) in
    omega (
      arith,
      length-append block (drop 16 bs),
      length-block key bs long,
      length-append (take 16 bs) (drop 16 bs),
      length-take_le 16 bs long,
      ap length (take-drop 16 bs),
    )

xor_block_twice :
    (key bs : Bytes) → All IsByte bs → 16 ≤ length bs → xor_block key (xor_block key bs) ≡ bs
xor_block_twice key bs h long =
    rw
      (
        take-block key bs long,
        drop-block key bs long,
        xor_all_twice (simple_hash key) (take 16 bs) (simple_hash-lt key) (All-take IsByte 16 bs h),
      )
      (take-drop 16 bs)

pub first_block-laws : CipherLaws first_block
first_block-laws = record {
  decrypt-encrypt = λ key bs k h whole long. (
    xor_block key bs,
    rw (ge→ltb (length bs) 16 long) refl,
    rw (length-xor_block key bs long, ge→ltb (length bs) 16 long, xor_block_twice key bs h long)
        refl,
    length-xor_block key bs long,
  );
  decrypt-short = λ key bs short. rw (lt→ltb (length bs) 16 (omega arith)) refl;
}

pub first_block-FirstBlockOnly : FirstBlockOnly first_block
first_block-FirstBlockOnly key bs out e = elim (Bool-cases (ltb (length bs) 16)) [
  | inl short ↦ absurd (ground arith)
  | inr long ↦
      let same : ok (xor_block key bs) ≡ ok out = rw long at e in
      let whole : xor_block key bs ≡ out = cc in
      ap (drop 16) (sym whole) ∙ drop-block key bs (ground arith)
]
