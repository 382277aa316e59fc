-- ===== src/Modules/Laws.antt =====
-- Registration keeps what is registered.
use release_engine.Prelude.{
  inl, inr, ◌⊎◌, ◌⊎◌, String, ◌≡◌, refl, none, some, List, [], ◌∷◌, eq_iff, eq_refl, arith,
  Option-cases, Dict, lookup, lookup-insert, ok?,
}
use release_engine.Modules.{Module, module_id, register_module, lookup_module, register_all}

module _ {D : Type 0} where
  register_keeps :
      (k : String) (m n : Module D) (modules : Dict (Module D))
      → lookup k modules ≡ some m
      → lookup k (register_module n modules).0 ≡ some m
  unfolding register_module
  register_keeps k m n modules h = ground (
    arith,
    h,
    lookup-insert (module_id n.key n.version) k n modules,
    eq_iff (module_id n.key n.version) k,
  )

  all_keep :
      (k : String) (m : Module D) (ms : List (Module D)) (modules : Dict (Module D))
      → lookup k modules ≡ some m
      → lookup k (register_all ms modules) ≡ some m
  unfolding register_all
  all_keep k m [] modules h = h
  all_keep k m (n ∷ ns) modules h =
      all_keep k m ns (register_module n modules).0 (register_keeps k m n modules h)

  -- A module whose registration succeeds is found under its key and version, whatever is
  -- registered afterwards.
  pub lookup_module-register :
      (m : Module D) (modules : Dict (Module D)) (ms : List (Module D))
      → ok? (register_module m modules).1
      → lookup_module m.key m.version (register_all ms (register_module m modules).0) ≡ some m
  unfolding register_module
  lookup_module-register m modules ms done =
      all_keep (module_id m.key m.version) m ms _
        (found (Option-cases (lookup (module_id m.key m.version) modules)))
    where
      found :
          (lookup (module_id m.key m.version) modules ≡ none)
            ⊎ ((n : Module D) × (lookup (module_id m.key m.version) modules ≡ some n))
          → lookup (module_id m.key m.version) (register_module m modules).0 ≡ some m
      found (inl e) = rw (e, register_module, lookup-insert, eq_refl) refl
      found (inr (n, e)) = absurd (rw (e, register_module) at done)
