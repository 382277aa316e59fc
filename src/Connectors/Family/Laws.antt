-- ===== src/Connectors/Family/Laws.antt =====
-- What a family resolves to.
use mathlib.Core.Path.{subst}
use release_engine.Prelude.{
  String, ◌<>◌, ◌≡◌, ◌⊎◌, sym, inl, inr, true, some, Bool-cases, Option-cases, lookup, ok,
}
use release_engine.Connectors.Types.{Connector}
use release_engine.Connectors.Registry.{Registry, find}
use release_engine.Connectors.Registry.Laws.{IsKeyed, found_key}
use release_engine.Connectors.Family.{ConnectorFamily, Families, has_member, resolve, looked_up}

module _ {I O : Type 0} where
  looked_up_ok :
      (key : String) (r : Registry I O) (c : Connector I O)
      → looked_up key r ≡ ok c
      → find key r ≡ some c
  looked_up_ok key r c h = elim (Option-cases (find key r)) [
    | inl e ↦ let stuck = rw (e, looked_up) at h in absurd cc
    | inr (d, e) ↦ let same = rw (e, looked_up) at h in let one : d ≡ c = cc in rw (e, one)
  ]

  -- In a registry that files connectors under their keys, what a family resolves a key to is the
  -- registry's connector under that key, or under the key with the family's name and a hyphen
  -- before it, and the connector's own key is a member of the registered family.
  pub resolve-member :
      (family impl_key : String) (fs : Families) (r : Registry I O) (c : Connector I O)
      → IsKeyed r
      → resolve family impl_key fs r ≡ ok c
      → (f : ConnectorFamily) × (lookup family fs ≡ some f)
        × (has_member c.key f ≡ true)
        × (find c.key r ≡ some c)
        × ((c.key ≡ impl_key) ⊎ (c.key ≡ family <> ("-" <> impl_key)))
  unfolding resolve
  resolve-member family impl_key fs r c keyed done = elim (Option-cases (lookup family fs)) [
    | inl e ↦ let stuck = rw (e, resolve) at done in absurd cc
    | inr (f, e) ↦
        let taken = rw (e, resolve) at done in
        elim (Bool-cases (has_member impl_key f)) [
          | inl full ↦
              let row = looked_up_ok impl_key r c (rw full at taken) in
              let same = found_key impl_key r c keyed row in
              (f, e, rw same full, subst (λ k. find k r ≡ some c) (sym same) row, inl same)
          | inr no_full ↦ elim (Bool-cases (has_member (family <> ("-" <> impl_key)) f)) [
            | inl short ↦
                let key = family <> ("-" <> impl_key) in
                let row = looked_up_ok key r c (rw (no_full, short) at taken) in
                let same = found_key key r c keyed row in
                (f, e, rw same short, subst (λ k. find k r ≡ some c) (sym same) row, inr same)
            | inr no_short ↦ let stuck = rw (no_full, no_short) at taken in absurd cc
          ]
        ]
  ]
