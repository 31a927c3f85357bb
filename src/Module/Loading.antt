-- ===== src/Module/Loading.antt =====
-- loadSo of src/native/src/module.cc: the functions that a shared object must have. The dynamic loader is
-- a parameter.
use snakesocks.Base.{ap, ◌≡◌, ◌↔◌, refl, Option, none, some, List, [], ◌∷◌, All}
use snakesocks.Io.{
  Bytes, Result, ok, thrown, overrun, open_failed, missing_symbol, M, follow, ◌>>=◌, return, die,
}
use snakesocks.NetLib.{codes}

pub record Loader : Type 1 where
  pub World : Type 0
  pub Handle : Type 0
  pub Symbol : Type 0
  pub dlopen : Bytes → M World (Option Handle)
  pub dlsym : Handle → Bytes → M World (Option Symbol)

-- In the order in which they are looked up.
abbrev pub symbol_names : List Bytes
symbol_names =
    codes "client_make_auth_query"
    ∷ codes "client_deal_auth_reply"
    ∷ codes "client_encode"
    ∷ codes "client_decode"
    ∷ codes "client_connection_close"
    ∷ codes "server_make_auth_reply"
    ∷ codes "server_encode"
    ∷ codes "server_decode"
    ∷ codes "server_connection_close"
    ∷ []

module _ (loader : Loader) where
  unfoldable pub find_all : loader.Handle → List Bytes → M loader.World (List loader.Symbol)
  unfolding die
  find_all handle [] = return []
  find_all handle (name ∷ rest) = loader.dlsym handle name >>= elim [
    | none ↦ die missing_symbol
    | some symbol ↦ do symbols ← find_all handle rest; return (symbol ∷ symbols)
  ]

  -- The handle is kept in `so_handle`, and the symbols in the functions of `client` and `server`.
  unfoldable pub load_so : Bytes → M loader.World (loader.Handle × List loader.Symbol)
  unfolding find_all
  load_so file_path = loader.dlopen file_path >>= elim [
    | none ↦ die open_failed
    | some handle ↦ do symbols ← find_all handle symbol_names; return (handle, symbols)
  ]

  -- As compiled for Windows, where the loader is `LoadLibrary` and `GetProcAddress`.
  abbrev pub load_dll : Bytes → M loader.World (loader.Handle × List loader.Symbol)
  load_dll file_path = load_so file_path

-- The functions that src/modules/stdafx.h declares: what a module has to define.
abbrev pub module_functions : List Bytes
module_functions =
    codes "client_make_auth_query"
    ∷ codes "client_deal_auth_reply"
    ∷ codes "client_encode"
    ∷ codes "client_decode"
    ∷ codes "client_connection_close"
    ∷ codes "server_make_auth_reply"
    ∷ codes "server_encode"
    ∷ codes "server_decode"
    ∷ codes "server_connection_close"
    ∷ []

module _ (loader : Loader) (handle : loader.Handle) (table : Bytes → Option loader.Symbol)
    (finds : (name : Bytes) (w : loader.World)
      → loader.dlsym handle name w ≡ (ok (table name), w)) where
  abbrev pub IsExported : Bytes → Type 0
  IsExported name = (symbol : loader.Symbol) × (table name ≡ some symbol)

  find_all-found :
      (names : List Bytes) (w : loader.World)
      → All IsExported names
      → (symbols : List loader.Symbol) × (find_all loader handle names w ≡ (ok symbols, w))
  unfolding find_all
  find_all-found [] w h = ([], refl)
  find_all-found (name ∷ rest) w ((symbol, e), h) =
      let (symbols, r) = find_all-found rest w h in (symbol ∷ symbols, rw (finds name w, e, r) refl)

  cons-IsExported :
      (name : Bytes) (rest : List Bytes) (w v : loader.World) (symbols : List loader.Symbol)
      (m : M loader.World (List loader.Symbol)) (o : Option loader.Symbol)
      (p : Result (List loader.Symbol) × loader.World)
      → table name ≡ o
      → m w ≡ p
      → ((u : loader.World) (xs : List loader.Symbol) → m w ≡ (ok xs, u) → All IsExported rest)
      → follow
          (ok o, w)
          (elim [ none ↦ die missing_symbol | some symbol ↦ do xs ← m; return (symbol ∷ xs) ])
        ≡ (ok symbols, v)
      → All IsExported (name ∷ rest)
  unfolding die
  cons-IsExported name rest w v symbols m none p e f go h = absurd (cc)
  cons-IsExported name rest w v symbols m (some s) (ok xs, u) e f go h = ((s, e), go u xs f)
  cons-IsExported name rest w v symbols m (some s) (thrown x, u) e f go h =
      absurd (let k = rw f at h in cc)
  cons-IsExported name rest w v symbols m (some s) (overrun, u) e f go h =
      absurd (let k = rw f at h in cc)

  find_all-IsExported :
      (names : List Bytes) (w v : loader.World) (symbols : List loader.Symbol)
      → find_all loader handle names w ≡ (ok symbols, v)
      → All IsExported names
  unfolding find_all
  find_all-IsExported [] w v symbols h = tt
  find_all-IsExported (name ∷ rest) w v symbols h =
      cons-IsExported name rest w v symbols (find_all loader handle rest) (table name)
        (find_all loader handle rest w) refl refl (λ u xs. find_all-IsExported rest w u xs)
        (unfold die in rw (finds name w) at h)

  followed-ok :
      (p : Result (List loader.Symbol) × loader.World) (symbols : List loader.Symbol)
      (v : loader.World)
      → follow {B = loader.Handle × List loader.Symbol} p (λ xs. return (handle, xs))
        ≡ (ok (handle, symbols), v)
      → (xs : List loader.Symbol) × (p ≡ (ok xs, v))
  followed-ok (ok xs, u) symbols v h = (xs, ap (λ u. (ok xs, u)) (ap (λ q. q.1) h))
  followed-ok (thrown x, u) symbols v h = absurd (cc)
  followed-ok (overrun, u) symbols v h = absurd (cc)

  -- Over a loader whose lookups change nothing, a shared object that opens is loaded exactly if it
  -- exports all nine functions that stdafx.h declares for a module, those of the client and those of the
  -- server, whichever half is used.
  pub load_so_iff :
      (file_path : Bytes) (w v : loader.World)
      → loader.dlopen file_path w ≡ (ok (some handle), v)
      → ((symbols : List loader.Symbol) × (load_so loader file_path w ≡ (ok (handle, symbols), v)))
        ↔ All IsExported module_functions
  unfolding load_so
  load_so_iff file_path w v opens = (
    λ (symbols, k).
        let (xs, e) =
          followed-ok (find_all loader handle symbol_names v) symbols v (rw opens at k) in
        find_all-IsExported symbol_names v v xs e,
    λ h. let (symbols, e) = find_all-found symbol_names v h in (symbols, rw (opens, e) refl),
  )
