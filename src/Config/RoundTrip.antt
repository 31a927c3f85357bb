-- ===== src/Config/RoundTrip.antt =====
-- What src/native/src/config.hpp saves it loads again, over what Boost documents of its property tree.
use snakesocks.Base.{
  ◌++◌, ◌==◌, Bool-cases, inl, inr, ℕ, ◌<◌, ◌^◌, ◌≡◌, refl, ◌∙◌, Bool, true, false, Option, some,
  List, [], ◌∷◌, if◌then◌else◌, arith,
}
use snakesocks.Io.{Bytes, ok}
use snakesocks.NetLib.{codes}
use snakesocks.Config.{
  ℤ, pos, Boost, ClientConfig, ServerConfig, same_text, bool_text, or_throw, put_all, get_text,
  get_u16, get_text_or, get_int_or, client_of, server_of, client_values, server_values, client_load,
  client_save, server_load, server_save,
}

abbrev pub begins : Bytes → Bytes → Bool
begins [] text = true
begins (x ∷ front) [] = false
begins (x ∷ front) (y ∷ text) = let rest = begins front text in if x == y then rest else false

-- What the code relies on: a value is found where it was put last, and a put changes what is found at no other
-- path, except that it makes the nodes above its own, such as "server" for "server.ip"; numbers survive the translation to
-- text, and a tree that an ini file can hold, `Storable`, is read back from the file it was written to.
pub record IniFiles (boost : Boost) : Type 1 where
  pub Storable : boost.Tree → Type 0
  pub stored : Bytes → boost.Tree → boost.World → boost.World
  pub get-put :
      (path value other : Bytes) (tree : boost.Tree)
      → begins (other ++ (b'.' ∷ [])) path ≡ false
      → boost.get (boost.put path value tree) other
        ≡ (if same_text path other then some value else boost.get tree other)
  pub u16_of-text : (n : ℕ) → n < 2 ^ 16 → boost.u16_of (boost.u16_text n) ≡ some n
  pub int_of-text : (n : ℤ) → boost.int_of (boost.int_text n) ≡ some n
  pub write :
      (path : Bytes) (tree : boost.Tree) (w : boost.World)
      → Storable tree
      → boost.write_ini path tree w ≡ (ok tt, stored path tree w)
  pub read :
      (path : Bytes) (tree : boost.Tree) (w : boost.World)
      → Storable tree
      → boost.read_ini path (stored path tree w) ≡ (ok tree, stored path tree w)

-- None of the values is put below the path `other`.
abbrev has_none_below : Bytes → List (Bytes × Bytes) → Bool
has_none_below other [] = true
has_none_below other ((path, value) ∷ rest) =
    let later = has_none_below other rest in
    if begins (other ++ (b'.' ∷ [])) path then false else later

-- The value that stands last for a path.
last_value : List (Bytes × Bytes) → Bytes → Option Bytes → Option Bytes
last_value [] other default = default
last_value ((path, value) ∷ rest) other default =
    last_value rest other (if same_text path other then some value else default)

module _ (boost : Boost) (files : IniFiles boost) where
  get-put_all :
      (values : List (Bytes × Bytes)) (other : Bytes) (tree : boost.Tree)
      → has_none_below other values ≡ true
      → boost.get (put_all boost values tree) other ≡ last_value values other (boost.get tree other)
  unfolding put_all last_value
  get-put_all [] other tree h = refl
  get-put_all ((path, value) ∷ rest) other tree h =
      elim (Bool-cases (begins (other ++ (b'.' ∷ [])) path)) [
        | inl below ↦ absurd (ground arith)
        | inr apart ↦
            get-put_all rest other (boost.put path value tree) (rw apart at h)
            ∙ rw (files.get-put path value other tree apart) refl
      ]

  same_text-bool : (b : Bool) → same_text (bool_text b) (codes "true") ≡ b
  unfolding same_text
  same_text-bool true = refl
  same_text-bool false = refl

  module _ (tree : boost.Tree) (path value : Bytes) (e : boost.get tree path ≡ some value) where
    get_text-found : get_text boost tree path ≡ ok value
    unfolding get_text
    get_text-found = ground (arith, e)

    get_u16-found : (n : ℕ) → n < 2 ^ 16 → value ≡ boost.u16_text n → get_u16 boost tree path ≡ ok n
    unfolding get_u16 or_throw
    get_u16-found n h v = ground (arith, e, v, files.u16_of-text n h)

    get_text_or-found : (default : Bytes) → get_text_or boost tree path default ≡ value
    unfolding get_text_or
    get_text_or-found default = ground (arith, e)

    get_int_or-found :
        (n default : ℤ) → value ≡ boost.int_text n → get_int_or boost tree path default ≡ n
    unfolding get_int_or
    get_int_or-found n default v = ground (arith, e, v, files.int_of-text n)

  client_of-values :
      (conf : ClientConfig) (w : boost.World)
      → conf.server_port < 2 ^ 16
      → conf.bind_port < 2 ^ 16
      → client_of boost (put_all boost (client_values boost conf) boost.empty) w ≡ (ok conf, w)
  unfolding client_of last_value same_text
  client_of-values conf w hs hb =
      let values = client_values boost conf in
      let tree = put_all boost values boost.empty in
      let g : (path : Bytes)
          → has_none_below path values ≡ true
          → boost.get tree path ≡ last_value values path (boost.get boost.empty path) =
        λ path apart. get-put_all values path boost.empty apart in
      rw
        (
          get_text-found tree (codes "server.ip") _ (g _ refl),
          get_u16-found tree (codes "server.port") _ (g _ refl) conf.server_port hs refl,
          get_text-found tree (codes "server.passphrase") _ (g _ refl),
          get_text-found tree (codes "socks5.ip") _ (g _ refl),
          get_u16-found tree (codes "socks5.port") _ (g _ refl) conf.bind_port hb refl,
          get_text-found tree (codes "core.module") _ (g _ refl),
          get_text-found tree (codes "core.nx_retry") _ (g _ refl),
          get_int_or-found tree (codes "core.debugLevel") _ (g _ refl) conf.debug_level (pos 1)
              refl,
          get_text_or-found tree (codes "core.logFile") _ (g _ refl) [],
        )
        (unfold same_text in rw (same_text-bool conf.retry_resolve) refl)

  server_of-values :
      (conf : ServerConfig) (w : boost.World)
      → conf.bind_port < 2 ^ 16
      → server_of boost (put_all boost (server_values boost conf) boost.empty) w ≡ (ok conf, w)
  unfolding server_of last_value same_text
  server_of-values conf w hb =
      let values = server_values boost conf in
      let tree = put_all boost values boost.empty in
      let g : (path : Bytes)
          → has_none_below path values ≡ true
          → boost.get tree path ≡ last_value values path (boost.get boost.empty path) =
        λ path apart. get-put_all values path boost.empty apart in
      rw
        (
          get_text_or-found tree (codes "core.ip") _ (g _ refl) (codes "::0"),
          get_u16-found tree (codes "core.port") _ (g _ refl) conf.bind_port hb refl,
          get_text-found tree (codes "core.passphrase") _ (g _ refl),
          get_text-found tree (codes "core.module") _ (g _ refl),
          get_int_or-found tree (codes "extra.debugLevel") _ (g _ refl) conf.debug_level (pos 1)
              refl,
          get_text_or-found tree (codes "extra.logFile") _ (g _ refl) [],
        )
        refl

  -- Over a property tree that keeps `IniFiles`, a client's configuration whose ports are below 2 ^ 16, if an ini file can hold it, is loaded from
  -- the file that it was saved to, whatever the file held before.
  pub client_load-save :
      (conf : ClientConfig) (path : Bytes) (w : boost.World)
      → conf.server_port < 2 ^ 16
      → conf.bind_port < 2 ^ 16
      → files.Storable (put_all boost (client_values boost conf) boost.empty)
      → (w' : boost.World) × (client_save boost conf path w ≡ (ok tt, w'))
        × (client_load boost path w' ≡ (ok conf, w'))
  unfolding client_load client_save
  client_load-save conf path w hs hb fits =
      let tree = put_all boost (client_values boost conf) boost.empty in
      (
        files.stored path tree w,
        files.write path tree w fits,
        rw (files.read path tree w fits) (client_of-values conf (files.stored path tree w) hs hb),
      )

  -- A server's configuration whose port is below 2 ^ 16, if an ini file can hold it, is loaded from
  -- the file that it was saved to, whatever the file held before.
  pub server_load-save :
      (conf : ServerConfig) (path : Bytes) (w : boost.World)
      → conf.bind_port < 2 ^ 16
      → files.Storable (put_all boost (server_values boost conf) boost.empty)
      → (w' : boost.World) × (server_save boost conf path w ≡ (ok tt, w'))
        × (server_load boost path w' ≡ (ok conf, w'))
  unfolding server_load server_save
  server_load-save conf path w hb fits =
      let tree = put_all boost (server_values boost conf) boost.empty in
      (
        files.stored path tree w,
        files.write path tree w fits,
        rw (files.read path tree w fits) (server_of-values conf (files.stored path tree w) hb),
      )
