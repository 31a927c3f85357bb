-- ===== src/ModuleTest/Passing.antt =====
-- Which modules pass src/modules/test.c.
use snakesocks.Base.{
  le→leb, ℕ, ◌+◌, ◌≤◌, ◌≡◌, refl, ap, true, All, List, [], ◌∷◌, length, ◌==◌, ==_refl, arith,
  Bool-cases, inl, inr,
}
use snakesocks.Io.{IsByte, Bytes, ok}
use snakesocks.Module.{ClientQuery, ClientFunctions, ServerFunctions, IsQuery}
use snakesocks.NetLib.{max_packet}
use snakesocks.Tunnel.{ModuleLaws}
use snakesocks.Tunnel.Login.{LoginLaws}
use snakesocks.ModuleTest.{
  Peers, Unset, peer, same_start, equal_payload, init, test_query, test_endecode, run_tests,
  test_main, max_testnum,
}

same_start_self : (str : Bytes) → same_start (length str) str str ≡ ok true
unfolding same_start
same_start_self [] = refl
same_start_self (x ∷ str) = elim (Bool-cases (x == 0)) [
  | inl e ↦ rw (==_refl x, e) refl
  | inr e ↦ rw (==_refl x, e) (same_start_self str)
]

equal_payload_self : (str : Bytes) → equal_payload str str ≡ ok true
equal_payload_self str = rw (same_start_self str, ==_refl (length str)) refl

abbrev IsUnset : Unset → Type 0
IsUnset u = (length u.address ≡ 12) × All IsByte u.address

module _ {I : Type 0} (client : ClientFunctions I) (server : ServerFunctions I)
    (laws : ModuleLaws client server) (unset : ℕ → Unset)
    (set_up : (i : ℕ) → IsUnset (unset i)) where
  abbrev pub IsTest : Bytes → Type 0
  IsTest str = All IsByte str × (length str + laws.overhead ≤ max_packet)

  abbrev AreLinked : Peers I → Type 0
  AreLinked p = laws.Link p.ci p.cii

  test_endecode_passes :
      (i : ℕ) (str : Bytes) (p : Peers I)
      → AreLinked p
      → IsTest str
      → (p' : Peers I) × (test_endecode client server (unset i) str p ≡ (ok true, p'))
        × AreLinked p'
  unfolding test_endecode
  test_endecode_passes i str p link (bs, fits) =
      let (size, filled) = set_up i in
      let q : ClientQuery = test_query client server (unset i) str in
      let isq : IsQuery q = record {
        address_length = omega (arith, size);
        address_bytes = (omega arith, (omega arith, (omega arith, (omega arith, filled))));
        port_range = omega arith;
        payload_length = omega arith;
        payload_bytes = bs;
      } in
      let (packet, c, s, enc, dec, link', _, _) = laws.client_codec p.ci p.cii q link isq fits in
      (
        record { ci = c; cii = s },
        rw (enc, dec) (ap (λ r. (r, record { ci = c; cii = s })) (equal_payload_self str)),
        link',
      )

  run_tests_pass :
      (strings : List Bytes) (i : ℕ) (p : Peers I)
      → AreLinked p
      → All IsTest strings
      → (p' : Peers I) × (run_tests client server unset i strings p
          ≡ (ok (record { successives = length strings; tests = length strings; failed = [] }), p'))
        × AreLinked p'
  unfolding run_tests
  run_tests_pass [] i p link h = (p, refl, link)
  run_tests_pass (str ∷ rest) i p link (h, hs) =
      let (p1, e, link1) = test_endecode_passes i str p link h in
      let (p2, f, link2) = run_tests_pass rest (i + 1) p1 link1 hs in
      (
        p2,
        rw (e, f)
            (ap (λ n. (ok (record { successives = n; tests = n; failed = [] }), p2)) (omega arith)),
        link2,
      )

  module _ (login_laws : LoginLaws client server laws) where
    init_links :
        (p : Peers I) × (init client server (record { ci = peer; cii = peer }) ≡ (ok tt, p))
        × AreLinked p
    unfolding init peer
    init_links =
        let (query, reply, c1, c2, s1, asked, judged, accepted, link, _, _) =
          login_laws.exchange peer peer refl (omega arith) in
        (record { ci = c2; cii = s1 }, rw (asked, judged, accepted) refl, link)

    -- A module whose halves fit each other once they have authenticated, and do that when they have the same
    -- passphrase, passes the program with at most 10000 strings whose packets it takes, whatever stands in the
    -- memory that the program does not set: it counts every one of them, and lists none as failed.
    pub test_main-passes :
        (strings : List Bytes)
        → length strings ≤ max_testnum
        → All IsTest strings
        → (p : Peers I) × (test_main client server unset strings ≡ (
          ok (record { successives = length strings; tests = length strings; failed = [] }),
          p,
        ))
          × laws.Link p.ci p.cii
    unfolding test_main
    test_main-passes strings few h =
        let (p, e, link) = init_links in
        let (p', f, link') = run_tests_pass strings 0 p link h in
        (p', rw (e, le→leb (length strings) max_testnum few) f, link')
