-- ===== src/Tests/ModuleTests.antt =====
-- The program src/modules/test.c with the module src/modules/simple_proxy/simple_proxy.c.
use snakesocks.Base.{◌≡◌, refl, false, [], ◌∷◌, replicate, arith}
use snakesocks.Io.{ok}
use snakesocks.NetLib.{codes}
use snakesocks.SimpleProxy.{client, server}
use snakesocks.Tunnel.Simple.{simple_laws, simple_login}
use snakesocks.ModuleTest.{Peers, Unset, test_main}
use snakesocks.ModuleTest.Passing.{test_main-passes}
use snakesocks.Tests.Fixtures.{mem, mem-IsMemory}

abbrev unset : Unset
unset = record { address = replicate 12 7; terminated = false }

test_main-passes_example :
    (p : Peers (Unit {0})) × (test_main
        (client mem)
        (server mem)
        (λ i. unset)
        (codes "ASDFSDFSDAFSDAFSADF" ∷ codes "" ∷ codes "/head" ∷ [])
      ≡ (ok (record { successives = 3; tests = 3; failed = [] }), p))
    × (p.cii.passphrase.str ≡ p.ci.passphrase.str)
test_main-passes_example =
    test_main-passes (client mem) (server mem) (simple_laws mem mem-IsMemory) (λ i. unset)
      (λ i. (refl, omega arith)) (simple_login mem mem-IsMemory)
      (codes "ASDFSDFSDAFSDAFSADF" ∷ codes "" ∷ codes "/head" ∷ []) (omega arith) (omega arith)
