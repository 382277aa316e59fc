-- ===== src/Connectors/Family.antt =====
-- internal/connector/family.go and family_registry.go. The wrapped registry is shared with its other
-- users, so `resolve` takes it as it is at the call.
pub mod Laws
use release_engine.Prelude.{
  String, ◌<>◌, Bool, Option, none, some, List, [], ◌∷◌, ◌==◌, any, if◌then◌else◌, Dict, lookup,
  insert, is_some, Result, ok, err,
}
use release_engine.Connectors.Types.{Connector}
use release_engine.Connectors.Registry.{Registry, find}

pub record OperationContract : Type 0 where
  pub required_input_fields : List String
  pub required_output_fields : List String

-- A nil map of operations, which is replaced by an empty one, is the empty one from the start.
pub record ConnectorFamily : Type 0 where
  pub name : String
  pub members : List String
  pub operations : Dict OperationContract

unfoldable pub has_member : String → ConnectorFamily → Bool
has_member key f = any (λ m. m == key) f.members

pub data FamilyError : Type 0 where
  empty_name : FamilyError
  already_registered unknown_family : String → FamilyError
  connector_not_found not_a_member : String → FamilyError

-- `GetFamilies` copies this map.
abbrev pub Families : Type 0
Families = Dict ConnectorFamily

unfoldable pub register_family :
    ConnectorFamily → Families → Families × Result FamilyError (Unit {0})
register_family f fs =
    if f.name == ""
    then (fs, err empty_name)
    else if is_some (lookup f.name fs)
    then (fs, err (already_registered f.name))
    else (insert f.name f fs, ok tt)

module _ {I O : Type 0} where
  abbrev looked_up : String → Registry I O → Result FamilyError (Connector I O)
  looked_up key r = elim (find key r) [ none ↦ err (connector_not_found key) | some c ↦ ok c ]

  -- `Resolve`
  unfoldable pub resolve :
      String → String → Families → Registry I O → Result FamilyError (Connector I O)
  resolve family impl_key fs r = elim (lookup family fs) [
    | none ↦ err (unknown_family family)
    | some f ↦
        if has_member impl_key f
        then looked_up impl_key r
        else if has_member (family <> ("-" <> impl_key)) f
        then looked_up (family <> ("-" <> impl_key)) r
        else err (not_a_member impl_key)
  ]
