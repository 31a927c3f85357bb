-- ===== src/Tests/LoadingTests.antt =====
-- loadSo of src/native/src/module.cc over a loader that finds every symbol.
use snakesocks.Base.{ℕ, ◌≡◌, ◌↔◌, refl, some, List, All}
use snakesocks.Io.{Bytes, ok}
use snakesocks.NetLib.{codes}
use snakesocks.Module.Loading.{Loader, module_functions, load_so, load_so_iff}

abbrev pub open_loader : Loader
open_loader = record {
  World = ℕ;
  Handle = ℕ;
  Symbol = Bytes;
  dlopen = λ path w. (ok (some 5), w);
  dlsym = λ handle name w. (ok (some name), w);
}

load_so_iff_example :
    ((symbols : List Bytes) × (load_so open_loader (codes "m.so") 0 ≡ (ok (5, symbols), 0)))
    ↔ All (λ name. (symbol : Bytes) × (some name ≡ some symbol)) module_functions
load_so_iff_example =
    load_so_iff open_loader 5 (λ name. some name) (λ name w. refl) (codes "m.so") 0 0 refl
