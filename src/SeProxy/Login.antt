-- ===== src/SeProxy/Login.antt =====
-- The authentication of src/modules/se_proxy/se_proxy.c: what a client and a server with one passphrase
-- agree on, whom the server accepts, and which answers run over a buffer.
use snakesocks.Base.{
  ℕ, zero, suc, ◌+◌, ◌-◌, ◌/◌, ◌%◌, ◌≤◌, ◌≡◌, ◌↔◌, refl, ap, ◌∙◌, Bool, true, false, none, some,
  ◌⊎◌, [], ◌∷◌, ◌++◌, arith, All, All-append, length, take, take-append, length-append, ltb, ◌==◌,
  ==_iff, ==_refl, not, le→leb, Bool-cases, inl, inr, ge→ltb, replicate,
}
use snakesocks.Io.{IsByte, Bytes, Result, ok, thrown, overrun}
use snakesocks.Module.{BinarySafeString, ConnectInfo, received}
use snakesocks.NetLib.{digits, to_string}
use snakesocks.Aes.{BlockCipher, CipherLaws, round_up, padded, mode_fill, aes_encrypt, aes_decrypt}
use snakesocks.Aes.Padding.{round_up-bounds, aes_decrypt-aes_encrypt}
use snakesocks.SeProxy.{
  Key, auth_str, magic_str, equal_chars, strfullcmp, take_key, client_make_auth_query,
  client_deal_auth_reply, server_make_auth_reply,
}

-- Decimal digits are bytes, and at most as many as there is fuel.
digits-IsByte : (fuel n : ℕ) → All IsByte (digits fuel n) × (length (digits fuel n) ≤ fuel)
unfolding digits
digits-IsByte zero n = (tt, omega arith)
digits-IsByte (suc fuel) n = elim (Bool-cases (ltb n 10)) [
  | inl small ↦ rw small (((ground arith), tt), omega arith)
  | inr big ↦
      let (bs, short) = digits-IsByte fuel (n / 10) in
      rw big (
        All-append IsByte (digits fuel (n / 10)) ((48 + n % 10) ∷ []) bs (omega arith, tt),
        omega (arith, length-append (digits fuel (n / 10)) ((48 + n % 10) ∷ [])),
      )
]

key-IsByte : (tmprnd : ℕ) → All IsByte (to_string tmprnd) × (length (to_string tmprnd) ≤ 10)
unfolding to_string
key-IsByte tmprnd = digits-IsByte 10 tmprnd

-- Behind the magic string stands the key.
take_key-magic :
    (key : Key) (conn : ConnectInfo Key)
    → take_key (padded (magic_str ++ key)) (length (magic_str ++ key)) conn
      ≡ (ok true, record conn { additional_info = some key })
unfolding take_key padded
take_key-magic key conn =
    let delta = round_up (length (magic_str ++ key)) 16 - length (magic_str ++ key) in
    let rest : Bytes = replicate (delta - 1) 0 ++ (delta ∷ []) in
    let whole : take (length (magic_str ++ key) - 8) (key ++ rest) ≡ key =
      ap (λ n. take n (key ++ rest)) (omega arith) ∙ take-append key rest in
    rw
      (
        ge→ltb (length (magic_str ++ key)) 8 (omega arith),
        ge→ltb (length (magic_str ++ (key ++ rest))) (length (magic_str ++ key))
            (omega (arith, length-append key rest)),
        whole,
      )
      refl

-- The authentication string is recognised behind its padding.
strfullcmp-padded :
    strfullcmp (padded auth_str) auth_str (length auth_str) (length auth_str) ≡ ok true
unfolding strfullcmp padded round_up
strfullcmp-padded = refl

-- Two buffers pass the comparison exactly when they are equal.
equal_chars_to : (xs ys : Bytes) → equal_chars xs ys ≡ true → xs ≡ ys
equal_chars_to [] [] e = refl
equal_chars_to [] (y ∷ ys) e = absurd (ground arith)
equal_chars_to (x ∷ xs) [] e = absurd (ground arith)
equal_chars_to (x ∷ xs) (y ∷ ys) e = elim (Bool-cases (x == y)) [
  | inl same ↦
      let rest : xs ≡ ys = equal_chars_to xs ys (rw same at e) in
      let first : x ≡ y = (==_iff x y).0 same in cc
  | inr other ↦ absurd (ground (arith))
]

equal_chars_refl : (xs : Bytes) → equal_chars xs xs ≡ true
equal_chars_refl [] = refl
equal_chars_refl (x ∷ xs) = rw (==_refl x) (equal_chars_refl xs)

-- The server's third argument, once it has returned.
abbrev pub accepted : Result (BinarySafeString × Bool) → Bool
accepted (ok (reply, failed)) = not failed
accepted (thrown e) = false
accepted overrun = false

not_both : {b : Bool} → b ≡ false → b ≡ true → ⊥
not_both off on = cc

-- What the comparison with the authentication string finds in a buffer of at least one block.
strfullcmp-cases :
    (request : Bytes) (rlen : ℕ)
    → 16 ≤ length request
    → let agrees = (rlen ≡ length auth_str) × (take (length auth_str) request ≡ auth_str) in
      ((strfullcmp request auth_str rlen (length auth_str) ≡ ok true) × agrees)
      ⊎ ((strfullcmp request auth_str rlen (length auth_str) ≡ ok false) × (¬ agrees))
unfolding strfullcmp
strfullcmp-cases request rlen long = elim (Bool-cases (rlen == length auth_str)) [
  | inr other ↦ inr (rw other refl, λ (n, _). absurd (ground (arith)))
  | inl same ↦
      let n : rlen ≡ length auth_str = (==_iff rlen (length auth_str)).0 same in
      let enough = le→leb (length auth_str) (length request) (omega arith) in
      elim (Bool-cases (equal_chars (take (length auth_str) request) auth_str)) [
        | inl text ↦ inl (rw (n, enough, text) refl, (n, equal_chars_to _ _ text))
        | inr differs ↦ inr (
          rw (n, enough, differs) refl,
          λ (_, text). absurd (
              not_both differs (ap (λ z. equal_chars z auth_str) text ∙ equal_chars_refl auth_str)),
        )
      ]
]

module _ (cipher : BlockCipher) where
  server_make_auth_reply-good :
      (tmprnd : ℕ) (s : ConnectInfo Key) (query request reply : Bytes) (rlen : ℕ)
      → let key : Key = b'_' ∷ to_string tmprnd in
        aes_decrypt cipher query s.passphrase.str mode_fill ≡ ok (request, rlen)
        → strfullcmp request auth_str rlen (length auth_str) ≡ ok true
        → aes_encrypt cipher (magic_str ++ key) s.passphrase.str mode_fill ≡ ok reply
        → server_make_auth_reply cipher tmprnd s (received query)
          ≡ (ok (received reply, false), record s { additional_info = some key })
  unfolding server_make_auth_reply
  server_make_auth_reply-good tmprnd s query request reply rlen d same e =
      rw (server_make_auth_reply, d, same, e) refl

  server_make_auth_reply-bad :
      (tmprnd : ℕ) (s : ConnectInfo Key) (query request : Bytes) (rlen : ℕ)
      → aes_decrypt cipher query s.passphrase.str mode_fill ≡ ok (request, rlen)
      → strfullcmp request auth_str rlen (length auth_str) ≡ ok false
      → server_make_auth_reply cipher tmprnd s (received query) ≡ (ok (received (1 ∷ []), true), s)
  unfolding server_make_auth_reply
  server_make_auth_reply-bad tmprnd s query request rlen d other =
      rw (server_make_auth_reply, d, other) refl

  client_deal_auth_reply-take_key :
      (c : ConnectInfo Key) (reply result : Bytes) (rlen : ℕ)
      → aes_decrypt cipher reply c.passphrase.str mode_fill ≡ ok (result, rlen)
      → client_deal_auth_reply cipher c (received reply) ≡ take_key result rlen c
  unfolding client_deal_auth_reply
  client_deal_auth_reply-take_key c reply result rlen d = rw (client_deal_auth_reply, d) refl

module _ (cipher : BlockCipher) (laws : CipherLaws cipher) where
  -- When both ends have the same passphrase, the server accepts the client's query, the client
  -- accepts the server's reply, and both hold the same key, an underscore and the digits of the
  -- server's random number; nothing else of either connection changes, and the query and the reply are
  -- short.
  pub client_deal_auth_reply-server_make_auth_reply :
      (tmprnd : ℕ) (c s : ConnectInfo Key)
      → s.passphrase.str ≡ c.passphrase.str
      → let key = some (b'_' ∷ to_string tmprnd) in
        let asked = client_make_auth_query cipher c in
        (query : Bytes) × (reply : Bytes) × (asked.0 ≡ ok (received query))
        × (server_make_auth_reply cipher tmprnd s (received query)
            ≡ (ok (received reply, false), record s { additional_info = key }))
        × (client_deal_auth_reply cipher asked.1 (received reply)
            ≡ (ok true, record c { additional_info = key }))
        × (length query ≤ 32)
        × (length reply ≤ 35)
  unfolding client_make_auth_query client_deal_auth_reply server_make_auth_reply
  client_deal_auth_reply-server_make_auth_reply tmprnd c s same =
      let key : Key = b'_' ∷ to_string tmprnd in
      let (digit_bytes, few) = key-IsByte tmprnd in
      let key_bytes = All-append IsByte magic_str key (omega arith) (omega arith, digit_bytes) in
      let (query, ask, asked, size) =
        aes_decrypt-aes_encrypt cipher laws auth_str c.passphrase.str (omega arith) (omega arith) in
      let (reply, say, said, size') =
        aes_decrypt-aes_encrypt cipher laws (magic_str ++ key) c.passphrase.str key_bytes
          (omega arith) in
      (
        query,
        reply,
        rw ask refl,
        server_make_auth_reply-good cipher tmprnd s query (padded auth_str) reply (length auth_str)
            (rw same asked) strfullcmp-padded (rw same say),
        client_deal_auth_reply-take_key cipher (record c { additional_info = none }) reply
              (padded (magic_str ++ key)) (length (magic_str ++ key)) said
            ∙ take_key-magic key (record c { additional_info = none }),
        omega (arith, size, round_up-bounds (length auth_str)),
        omega (arith, size', round_up-bounds (length (magic_str ++ key))),
      )

  -- A query of at least one block that decrypts, under the server's passphrase, makes the server accept
  -- exactly if what it decrypts to, cut to the length that its padding tells, is the authentication
  -- string; whoever is not accepted gets the one byte 1 and no key.
  pub server_make_auth_reply_iff :
      (tmprnd rlen : ℕ) (s : ConnectInfo Key) (query request : Bytes)
      → aes_decrypt cipher query s.passphrase.str mode_fill ≡ ok (request, rlen)
      → 16 ≤ length request
      → let answer = server_make_auth_reply cipher tmprnd s (received query) in
        ((accepted answer.0 ≡ true)
          ↔ ((rlen ≡ length auth_str) × (take (length auth_str) request ≡ auth_str)))
        × ((accepted answer.0 ≡ true) ⊎ (answer ≡ (ok (received (1 ∷ []), true), s)))
  server_make_auth_reply_iff tmprnd rlen s query request e long =
      let key : Key = b'_' ∷ to_string tmprnd in
      let (digit_bytes, few) = key-IsByte tmprnd in
      let key_bytes = All-append IsByte magic_str key (omega arith) (omega arith, digit_bytes) in
      let (reply, say, said, _) =
        aes_decrypt-aes_encrypt cipher laws (magic_str ++ key) s.passphrase.str key_bytes
          (omega arith) in
      elim (strfullcmp-cases request rlen long) [
        | inl (same, (n, text)) ↦
            rw (server_make_auth_reply-good cipher tmprnd s query request reply rlen e same say)
              (((λ _. (n, text)), (λ _. refl)), inl refl)
        | inr (other, differs) ↦
            rw (server_make_auth_reply-bad cipher tmprnd s query request rlen e other)
              (((λ off. absurd (ground arith)), (λ on. absurd (differs on))), inr refl)
      ]
