-- ===== src/Modules.antt =====
-- internal/registry/module_registry.go: the modules by key and version. The mutex makes each
-- operation one step; a module is what `Key`, `Version` and `Describe` return.
pub mod Laws
use release_engine.Prelude.{
  String, ◌<>◌, List, [], ◌∷◌, Option, none, some, if◌then◌else◌, Dict, lookup, insert, is_some,
  map, Result, ok, err,
}

pub record Module (Descriptor : Type 0) : Type 0 where
  pub key : String
  pub version : String
  pub descriptor : Descriptor

pub data DuplicateError : Type 0 where
  module_duplicate : (id : String) → DuplicateError

-- `fmt.Sprintf("%s:%s", key, version)`
abbrev pub module_id : String → String → String
module_id key version = key <> (":" <> version)

module _ {D : Type 0} where
  unfoldable pub register_module :
      Module D → Dict (Module D) → Dict (Module D) × Result DuplicateError (Unit {0})
  register_module m modules =
      if is_some (lookup (module_id m.key m.version) modules)
      then (modules, err (module_duplicate (module_id m.key m.version)))
      else (insert (module_id m.key m.version) m modules, ok tt)

  abbrev pub lookup_module : String → String → Dict (Module D) → Option (Module D)
  lookup_module key version modules = lookup (module_id key version) modules

  -- In the order of registration; Go's is open.
  abbrev pub list_modules : Dict (Module D) → List D
  list_modules modules = map (λ e. e.1.descriptor) modules

  -- The registrations of a start-up, whose errors leave the registry as it is.
  unfoldable pub register_all : List (Module D) → Dict (Module D) → Dict (Module D)
  register_all [] modules = modules
  register_all (m ∷ ms) modules = register_all ms (register_module m modules).0
