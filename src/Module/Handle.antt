-- ===== src/Module/Handle.antt =====
-- The life of a module_interface, in src/native/src/module.hpp: who closes the shared object.
use snakesocks.Base.{◌≡◌, refl, Option, none, some, List, []}
use snakesocks.Io.{Bytes, M, ◌>>=◌, return}
use snakesocks.Module.Loading.{Loader, load_so}

-- The functions of `client` and `server`, and `so_handle`, with `none` for the null pointer.
pub record Interface (loader : Loader) : Type 0 where
  pub functions : List loader.Symbol
  pub so_handle : Option loader.Handle

module _ (loader : Loader) (dlclose : loader.Handle → loader.World → loader.World) where
  unfoldable pub construct : Bytes → M loader.World (Interface loader)
  construct so_path = do
    loaded ← load_so loader so_path
    return (record { functions = loaded.1; so_handle = some loaded.0 })

  -- The move constructors: the new object, and what is left of the old one.
  unfoldable pub move_from : Interface loader → Interface loader × Interface loader
  move_from ano = (
    record { functions = ano.functions; so_handle = ano.so_handle },
    record { functions = []; so_handle = none },
  )

  unfoldable pub destroy : Interface loader → loader.World → loader.World
  destroy mod_ w = elim mod_.so_handle [ none ↦ w | some handle ↦ dlclose handle w ]

  -- A module that has been moved is closed once, by whichever of the two objects is destroyed first.
  pub destroy-move_from :
      (mod_ : Interface loader) (w : loader.World)
      → (destroy (move_from mod_).0 (destroy (move_from mod_).1 w) ≡ destroy mod_ w)
        × (destroy (move_from mod_).1 (destroy (move_from mod_).0 w) ≡ destroy mod_ w)
        × ((move_from mod_).0.functions ≡ mod_.functions)
  unfolding move_from destroy
  destroy-move_from mod_ w = (refl, refl, refl)
