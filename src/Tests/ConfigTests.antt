-- ===== src/Tests/ConfigTests.antt =====
-- src/native/src/config.hpp on concrete configurations, over a property tree that is a list of pairs
-- and a disk that is a list of trees.
use snakesocks.Base.{
  ℕ, ◌<◌, ◌^◌, ◌≡◌, refl, ap, true, Option, none, some, List, [], ◌∷◌, if◌then◌else◌, arith,
  ==_refl,
}
use snakesocks.Io.{Bytes, Result, ok, thrown, bad_path}
use snakesocks.NetLib.{codes}
use snakesocks.Config.{
  ℤ, pos, negsuc, Boost, ClientConfig, ServerConfig, same_text, client_load, client_save,
}
use snakesocks.Config.RoundTrip.{IniFiles, client_load-save}

abbrev pub Tree : Type 0
Tree = List (Bytes × Bytes)

unfoldable pub find : Tree → Bytes → Option Bytes
find [] other = none
find ((path, value) ∷ rest) other = if same_text path other then some value else find rest other

-- The file that was written last under a name.
unfoldable pub open_file : List (Bytes × Tree) → Bytes → Result Tree
open_file [] name = thrown bad_path
open_file ((path, tree) ∷ rest) name = if same_text path name then ok tree else open_file rest name

unfoldable pub u16_of : Bytes → Option ℕ
u16_of (n ∷ []) = some n
u16_of bs = none

unfoldable pub int_of : Bytes → Option ℤ
int_of (n ∷ []) = some (pos n)
int_of (sign ∷ n ∷ []) = some (negsuc n)
int_of bs = none

unfoldable pub int_text : ℤ → Bytes
int_text (pos n) = n ∷ []
int_text (negsuc n) = 45 ∷ n ∷ []

abbrev pub list_boost : Boost
list_boost = record {
  World = List (Bytes × Tree);
  Tree = Tree;
  empty = [];
  get = find;
  put = λ path value tree. (path, value) ∷ tree;
  read_ini = λ path w. (open_file w path, w);
  write_ini = λ path tree w. (ok tt, (path, tree) ∷ w);
  u16_text = λ n. n ∷ [];
  u16_of = u16_of;
  int_text = int_text;
  int_of = int_of;
}

same_text_refl : (bs : Bytes) → same_text bs bs ≡ true
unfolding same_text
same_text_refl [] = refl
same_text_refl (b ∷ bs) = rw (==_refl b) (same_text_refl bs)

int_of-text : (n : ℤ) → int_of (int_text n) ≡ some n
unfolding int_of int_text
int_of-text (pos n) = refl
int_of-text (negsuc n) = refl

find-put :
    (path value other : Bytes) (tree : Tree)
    → find ((path, value) ∷ tree) other
      ≡ (if same_text path other then some value else find tree other)
unfolding find
find-put path value other tree = refl

u16_of-text : (n : ℕ) → n < 2 ^ 16 → u16_of (n ∷ []) ≡ some n
unfolding u16_of
u16_of-text n h = refl

open_file-written :
    (path : Bytes) (tree : Tree) (w : List (Bytes × Tree))
    → open_file ((path, tree) ∷ w) path ≡ ok tree
unfolding open_file
open_file-written path tree w = rw (same_text_refl path) refl

abbrev list_files : IniFiles list_boost
list_files = record {
  Storable = λ tree. Unit {0};
  stored = λ path tree w. (path, tree) ∷ w;
  get-put = λ path value other tree apart. find-put path value other tree;
  u16_of-text = u16_of-text;
  int_of-text = int_of-text;
  write = λ path tree w h. refl;
  read = λ path tree w h. ap (λ r. (r, (path, tree) ∷ w)) (open_file-written path tree w);
}

abbrev pub home : ClientConfig
home = record {
  server_ip = codes "a.io";
  server_port = 1080;
  passphrase = codes "key";
  bind_ip = codes "::0";
  bind_port = 1081;
  module_path = codes "simple.so";
  retry_resolve = true;
  debug_level = pos 2;
  log_file = [];
}

abbrev pub site : ServerConfig
site = record {
  bind_ip = codes "::0";
  bind_port = 1080;
  passphrase = codes "key";
  module_path = codes "simple.so";
  debug_level = negsuc 0;
  log_file = codes "log";
}

client_load-save_example :
    (w : List (Bytes × Tree)) × (client_save list_boost home (codes "c.conf") [] ≡ (ok tt, w))
    × (client_load list_boost (codes "c.conf") w ≡ (ok home, w))
client_load-save_example =
    client_load-save list_boost list_files home (codes "c.conf") [] (omega arith) (omega arith) tt
