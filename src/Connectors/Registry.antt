-- ===== src/Connectors/Registry.antt =====
-- internal/connector/registry.go. Go's map iterates in any order: here it is that of insertion.
-- The type assertions of the three resolvers always hold, since the typed interfaces add no method
-- to `Connector`, so what follows them is never reached.
pub mod Laws
use release_engine.Prelude.{
  String, ◌<>◌, Bool, true, false, Option, none, some, List, [], ◌∷◌, ◌==◌, if◌then◌else◌, Dict,
  lookup, insert, is_some, join, Result, ok, err,
}
use release_engine.Connectors.Types.{Connector}

pub record Registry (Input Output : Type 0) : Type 0 where
  pub connectors : Dict (Connector Input Output)
  pub closed : Bool

pub data RegistryError : Type 0 where
  registry_closed : RegistryError
  already_registered not_found : String → RegistryError
  closing : String → RegistryError

-- What is left behind a prefix, if the text has it.
unfoldable pub strip_prefix : String → String → Option String
strip_prefix String.[] s = some s
strip_prefix (String.◌∷◌ c p) String.[] = none
strip_prefix (String.◌∷◌ c p) (String.◌∷◌ d s) =
    if String.◌∷◌ c String.[] == String.◌∷◌ d String.[] then strip_prefix p s else none

-- The key that `ResolveGit` looks up.
unfoldable pub git_key : String → String
git_key name = if is_some (strip_prefix "git-" name) then name else "git-" <> name

-- The key that `ResolvePolicy` and `ResolveWebhook` look up, by the prefix they know.
unfoldable pub other_key : String → String → String
other_key prefix name = elim (strip_prefix prefix name) [
  | none ↦ "other-" <> name
  | some tech ↦ "other-" <> tech
]

abbrev pub closing_result : List String → Result RegistryError (Unit {0})
closing_result [] = ok tt
closing_result (e ∷ es) = err (closing (join "; " (e ∷ es)))

module _ {I O : Type 0} where
  -- `NewConnectorRegistry`, `NewTypedConnectorRegistry`
  abbrev pub new_connector_registry : Registry I O
  new_connector_registry = record { connectors = []; closed = false }

  unfoldable pub register :
      Connector I O → Registry I O → Registry I O × Result RegistryError (Unit {0})
  register c r =
      if r.closed
      then (r, err registry_closed)
      else if is_some (lookup c.key r.connectors)
      then (r, err (already_registered c.key))
      else (record r { connectors = insert c.key c r.connectors }, ok tt)

  unfoldable pub replace :
      Connector I O → Registry I O → Registry I O × Result RegistryError (Unit {0})
  replace c r =
      if r.closed
      then (r, err registry_closed)
      else if is_some (lookup c.key r.connectors)
      then (record r { connectors = insert c.key c r.connectors }, ok tt)
      else (r, err (not_found c.key))

  -- `Lookup`
  unfoldable pub find : String → Registry I O → Option (Connector I O)
  find key r = lookup key r.connectors

  abbrev pub is_of_type : String → Connector I O → Bool
  is_of_type t c = elim c.type_of [ none ↦ false | some u ↦ u == t ]

  abbrev of_type : String → Dict (Connector I O) → List (Connector I O)
  of_type t [] = []
  of_type t ((k, c) ∷ m) = let rest = of_type t m in if is_of_type t c then c ∷ rest else rest

  unfoldable pub list_by_type : String → Registry I O → List (Connector I O)
  list_by_type t r = of_type t r.connectors

  abbrev pub close_errors : Dict (Connector I O) → List String
  close_errors [] = []
  close_errors ((k, c) ∷ m) =
      let rest = close_errors m in elim c.close [ none ↦ rest | some e ↦ e ∷ rest ]

  unfoldable pub close : Registry I O → Registry I O × Result RegistryError (Unit {0})
  close r =
      if r.closed
      then (r, ok tt)
      else (record r { closed = true }, closing_result (close_errors r.connectors))

  abbrev pub found : String → Registry I O → Result RegistryError (Connector I O)
  found key r = elim (lookup key r.connectors) [ none ↦ err (not_found key) | some c ↦ ok c ]

  unfoldable pub resolve_git : String → Registry I O → Result RegistryError (Connector I O)
  resolve_git name r = found (git_key name) r

  unfoldable pub resolve_policy : String → Registry I O → Result RegistryError (Connector I O)
  resolve_policy name r = found (other_key "policy-" name) r

  unfoldable pub resolve_webhook : String → Registry I O → Result RegistryError (Connector I O)
  resolve_webhook name r = found (other_key "webhook-" name) r
