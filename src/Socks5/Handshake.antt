-- ===== src/Socks5/Handshake.antt =====
-- The method dialogue of handshake_pkgs, in src/native/src/socks5.cc.
use mathlib.Core.List.{Mem, mem-cons, not-mem-nil}
use mathlib.Core.Logic.Or
use mathlib.Core.HLevel.{⊥_prop}
use snakesocks.Base.{
  ℕ, ◌+◌, ◌-◌, ◌^◌, ◌≤◌, ◌<◌, ◌≡◌, ◌≢◌, ◌↔◌, refl, sym, ◌∙◌, ap, true, false, [], ◌∷◌, ◌++◌, arith,
  length, le→leb, gt→leb, lt→ltb, ge→ltb, ==_ne, ==_iff, Bool-cases, inl, inr, ◌==◌, if◌then◌else◌,
}
use snakesocks.Io.{Bytes, ok, thrown, overrun, incorrect_protocol, SockIo, Streams}
use snakesocks.NetLib.Frames.{Taken, Taken-trans, recvn-Taken, sendn-Sent}
use snakesocks.Socks5.{size_of_char, offers_no_auth, handshake_pkgs}

offers_no_auth-found : (methods : Bytes) → offers_no_auth methods ≡ true → Mem 0 methods
unfolding offers_no_auth
offers_no_auth-found [] h = absurd (cc)
offers_no_auth-found (m ∷ ms) h = elim (Bool-cases (m == 0)) [
  | inl e ↦ mem-cons.1 (Or.inl (sym ((==_iff m 0).0 e)))
  | inr e ↦ mem-cons.1 (Or.inr (offers_no_auth-found ms (ground arith)))
]

offers_no_auth-missed : (methods : Bytes) → offers_no_auth methods ≡ false → ¬ Mem 0 methods
unfolding offers_no_auth
offers_no_auth-missed [] h m = not-mem-nil m
offers_no_auth-missed (m ∷ ms) h e =
    Or.elim ⊥_prop (mem-cons.0 e) (λ z. ground arith) (offers_no_auth-missed ms (ground arith))

abbrev choice : Bytes → ℕ
choice methods = if offers_no_auth methods then 0 else 255

choice_lem :
    (methods : Bytes)
    → ((choice methods ≡ 0) ↔ Mem 0 methods) × ((choice methods ≡ 255) ↔ ¬ Mem 0 methods)
choice_lem methods = elim (Bool-cases (offers_no_auth methods)) [
  | inl e ↦
      let found = offers_no_auth-found methods e in
      rw e (
        ((λ _. found), (λ _. refl)),
        ((λ p. absurd (omega arith)), (λ missed. absurd (missed found))),
      )
  | inr e ↦
      let missed = offers_no_auth-missed methods e in
      rw e (
        ((λ p. absurd (omega arith)), (λ found. absurd (missed found))),
        ((λ _. missed), (λ _. refl)),
      )
]

pub size_of_char_small : (c : ℕ) → c < 128 → size_of_char c ≡ c
unfolding size_of_char
size_of_char_small c h = rw (lt→ltb c 128 h) refl

pub size_of_char_large : (c : ℕ) → 128 ≤ c → size_of_char c ≡ c + (2 ^ 64 - 256)
unfolding size_of_char
size_of_char_large c h = rw (ge→ltb c 128 h) refl

module _ (io : SockIo) (s : Streams io) (fd : ℕ) where
  open s use {incoming, outgoing, writable, consume, emit}

  -- A client that speaks version 5 and offers at most 127 methods is answered by two bytes, the
  -- version and the choice: 0 exactly if it offers method 0, and 255 exactly if it does not. All
  -- that it offered is read, and nothing behind it.
  pub handshake_pkgs_lem :
      (methods rest : Bytes) (w : io.World)
      → incoming w fd ≡ 5 ∷ length methods ∷ (methods ++ rest)
      → length methods < 128
      → writable w fd ≡ true
      → (w' : io.World) × (reply : ℕ) × (handshake_pkgs io fd w ≡ (ok tt, w'))
        × (incoming w' fd ≡ rest)
        × (outgoing w' fd ≡ outgoing w fd ++ (5 ∷ reply ∷ []))
        × ((reply ≡ 0) ↔ Mem 0 methods)
        × ((reply ≡ 255) ↔ ¬ Mem 0 methods)
  unfolding handshake_pkgs
  handshake_pkgs_lem methods rest w e small open_w =
      let n = length methods in
      let v = consume fd 2 w in
      let (r, p) = recvn-Taken io s fd (5 ∷ n ∷ []) (methods ++ rest) w e in
      let (r', p') = recvn-Taken io s fd methods rest v p.unread in
      let q = Taken-trans io s fd (methods ++ rest) rest w v (consume fd n v) p p' in
      let answer = 5 ∷ choice methods ∷ [] in
      let (t, z) = sendn-Sent io s fd answer (consume fd n v) (q.still_open ∙ open_w) in
      let (iff_0, iff_255) = choice_lem methods in
      (
        emit fd answer (consume fd n v),
        choice methods,
        rw (r, size_of_char_small n small, le→leb n 256 (omega arith), r') t,
        z.unread ∙ q.unread,
        z.sent ∙ ap (λ o. o ++ answer) q.sent,
        iff_0,
        iff_255,
      )

  -- A client that announces 128 methods or more makes the receive longer than the buffer.
  pub handshake_pkgs-overrun :
      (n : ℕ) (rest : Bytes) (w : io.World)
      → incoming w fd ≡ 5 ∷ n ∷ rest
      → 128 ≤ n
      → (handshake_pkgs io fd w).0 ≡ overrun
  unfolding handshake_pkgs
  handshake_pkgs-overrun n rest w e large =
      let (r, p) = recvn-Taken io s fd (5 ∷ n ∷ []) rest w e in
      rw (r, size_of_char_large n large, gt→leb (n + (2 ^ 64 - 256)) 256 (omega arith)) refl

  -- Another version is refused after two bytes, and nothing is sent.
  pub handshake_pkgs-thrown :
      (version n : ℕ) (rest : Bytes) (w : io.World)
      → incoming w fd ≡ version ∷ n ∷ rest
      → version ≢ 5
      → (w' : io.World) × (handshake_pkgs io fd w ≡ (thrown incorrect_protocol, w'))
        × Taken io s fd rest w w'
  unfolding handshake_pkgs
  handshake_pkgs-thrown version n rest w e other =
      let (r, p) = recvn-Taken io s fd (version ∷ n ∷ []) rest w e in
      (consume fd 2 w, rw (r, ==_ne version 5 other) refl, p)
