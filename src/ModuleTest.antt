-- ===== src/ModuleTest.antt =====
-- src/modules/test.c: the program with which an author tests a module. Both halves of the module are linked
-- into it; the C library's `printf` is left out, and what it is given is the result.
pub mod Passing
use snakesocks.Base.{
  leb, ℕ, zero, suc, ◌+◌, Bool, true, false, none, List, [], ◌∷◌, ◌++◌, length, ◌==◌, if◌then◌else◌,
  replicate,
}
use snakesocks.Io.{
  Bytes, Result, ok, thrown, overrun, out_of_bounds, M, follow, ◌>>=◌, ◌>>◌, return,
}
use snakesocks.Module.{
  BinarySafeString, ClientQuery, ConnectInfo, ClientFunctions, ServerFunctions, received,
}
use snakesocks.NetLib.{codes}

-- `MAX_TESTNUM`, the size of `tststrs` and of `tstresults`.
abbrev pub max_testnum : ℕ
max_testnum = 10000

-- The globals `ci` and `cii`, which the client's half and the server's half are given.
pub record Peers (I : Type 0) : Type 0 where
  pub ci : ConnectInfo I
  pub cii : ConnectInfo I

-- What the program does not set: twelve bytes of the address and the flag of the payload.
pub record Unset : Type 0 where
  pub address : Bytes
  pub terminated : Bool

-- Global objects start as zeros; `init` sets both alike.
unfoldable pub peer : {I : Type 0} → ConnectInfo I
peer = record {
  server_ip = 54 ∷ 44 ∷ 64 ∷ 14 ∷ replicate 12 0;
  server_port = 321;
  passphrase = received (codes "const_stringfuck");
  connect_fd = 123;
  additional_info = none;
}

-- `strncmp(a, b, n) == 0`, where `a` need not end in a zero byte and `b` has at least `n` bytes.
unfoldable pub same_start : ℕ → Bytes → Bytes → Result Bool
same_start zero a b = ok true
same_start (suc n) [] b = overrun
same_start (suc n) (x ∷ a) [] = overrun
same_start (suc n) (x ∷ a) (y ∷ b) =
    let rest = same_start n a b in if x == y then (if x == 0 then ok true else rest) else ok false

-- `strncmp(...) == 0 && len == decoded.payload.length`
abbrev pub and_also : Result Bool → Bool → Result Bool
and_also (ok true) same_length = ok same_length
and_also (ok false) same_length = ok false
and_also (thrown e) same_length = thrown e
and_also overrun same_length = overrun

abbrev pub equal_payload : Bytes → Bytes → Result Bool
equal_payload payload str =
    and_also (same_start (length str) payload str) (length str == length payload)

-- What `run_tests` prints: how many have passed, of how many, and the others with their numbers.
pub record Report : Type 0 where
  pub successives : ℕ
  pub tests : ℕ
  pub failed : List (ℕ × Bytes)

abbrev pub count_result : ℕ → Bytes → Bool → Report → Report
count_result i str result later = record {
  successives = if result then later.successives + 1 else later.successives;
  tests = later.tests + 1;
  failed = if result then later.failed else (i, str) ∷ later.failed;
}

module _ {I : Type 0} (client : ClientFunctions I) (server : ServerFunctions I) where
  abbrev pub Test : Type 0 → Type 0
  Test A = M (Peers I) A

  abbrev pub by_client : {A : Type 0} → M (ConnectInfo I) A → Test A
  by_client m p = let (r, c) = m p.ci in (r, record p { ci = c })

  abbrev pub by_server : {A : Type 0} → M (ConnectInfo I) A → Test A
  by_server m p = let (r, c) = m p.cii in (r, record p { cii = c })

  -- Whether the two accept each other is not looked at.
  unfoldable pub init : Test (Unit {0})
  init = do
    authbss ← by_client client.client_make_auth_query
    (replybss, tmpbool) ← by_server (λ c. server.server_make_auth_reply c authbss)
    accepted ← by_client (λ c. client.client_deal_auth_reply c replybss)
    return tt

  abbrev pub test_query : Unset → Bytes → ClientQuery
  test_query unset str = record {
    destination_ip = 54 ∷ 44 ∷ 64 ∷ 14 ∷ unset.address;
    destination_port = 6543;
    payload = record { null_terminated = unset.terminated; str = str };
  }

  -- A string and its length, which `run_tests` takes by `strlen`.
  unfoldable pub test_endecode : Unset → Bytes → Test Bool
  unfolding same_start
  test_endecode unset str = do
    ret ← by_client (λ c. client.client_encode c (test_query unset str))
    decoded ← by_server (λ c. server.server_decode c ret)
    λ p. (equal_payload decoded.payload.str str, p)

  -- The tests from the `i`th on; the memory that a call leaves unset may differ from call to call.
  unfoldable pub run_tests : (ℕ → Unset) → ℕ → List Bytes → Test Report
  unfolding test_endecode
  run_tests unset i [] = return (record { successives = 0; tests = 0; failed = [] })
  run_tests unset i (str ∷ rest) = do
    result ← test_endecode (unset i) str
    later ← run_tests unset (i + 1) rest
    return (count_result i str result later)

  -- `main`, with the strings that its `TST` lines list. One more than `tststrs` has room for is written
  -- behind it.
  unfoldable pub test_main : (ℕ → Unset) → List Bytes → Result Report × Peers I
  unfolding init run_tests peer
  test_main unset strings =
      (init
          >> (if leb (length strings) max_testnum
              then run_tests unset 0 strings
              else out_of_bounds))
        (record { ci = peer; cii = peer })
