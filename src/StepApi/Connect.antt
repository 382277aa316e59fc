-- ===== src/StepApi/Connect.antt =====
-- `CallConnector` (internal/runner/step_api.go). An error is its code, the message being left out. A
-- vault is Volta's: for a list of keys, the secrets that `UseSecrets` hands to its callback, or the error
-- it returns without calling it; it returns the callback's error.
pub mod Laws
use release_engine.Prelude.{
  String, Bool, true, false, not, Option, none, some, List, [], ◌∷◌, ◌==◌, any, if◌then◌else◌, Dict,
  lookup, insert, Result, ok, err,
}
use release_engine.Connectors.Types.{Connector, Reply, ConnectorError}
use release_engine.Connectors.Registry.{Registry}
use release_engine.Connectors.Family.{Families, resolve}

abbrev pub Vault : Type 0
Vault = List String → Result String (Dict String)

-- The module of the run: nil, or one that names a tenant, or one that does not.
pub data ModuleRef : Type 0 where
  no_module without_context : ModuleRef
  with_context : (tenant_id : String) → ModuleRef

-- The adapter's fields that the call reads; `none` is nil.
pub record Adapter (I O : Type 0) : Type 0 where
  pub resolved_connectors : Option (Dict (Connector I O))
  pub family_registry : Option (Families × Registry I O)
  pub vault_manager : Option (String → Result String Vault)
  pub caller : ModuleRef
  pub tenant_id : String

pub record ConnectorRequest (I : Type 0) : Type 0 where
  pub connector : String
  pub impl_key : String
  pub operation : String
  pub input : I

pub record StepResult (O : Type 0) : Type 0 where
  pub status : String
  pub output : Option O
  pub error : Option String

-- The call returns, with a nil error, or dereferences a nil result.
pub data Answer (O : Type 0) : Type 0 where
  answered : StepResult O → Answer O
  panics : Answer O

abbrev pub failed : {O : Type 0} → String → Answer O
failed code = answered (record { status = "error"; output = none; error = some code })

abbrev pub code_of : Option ConnectorError → Option String
code_of none = none
code_of (some e) = some e.code

-- What the connector's reply becomes.
unfoldable pub convert : {O : Type 0} → String → Reply O → Answer O
convert code reply = elim reply.error [
  | some e ↦ failed code
  | none ↦ elim reply.result [
    | none ↦ panics
    | some r ↦
        answered (record { status = r.status; output = some r.output; error = code_of r.error })
  ]
]

-- The logical keys are the physical ones, and a key that was not asked for is filed under "".
unfoldable pub remap : List String → Dict String → Dict String
remap keys [] = []
remap keys ((physical, value) ∷ secrets) =
    insert (if any (λ k. k == physical) keys then physical else "") value (remap keys secrets)

module _ {I O : Type 0} where
  unfoldable pub select : Adapter I O → ConnectorRequest I → Option (Connector I O)
  select a req = elim a.resolved_connectors [
    | some cs ↦ lookup req.connector cs
    | none ↦ elim a.family_registry [
      | none ↦ none
      | some reg ↦
          let (fs, r) = reg in
          elim (resolve req.connector req.impl_key fs r) [ ok c ↦ some c | err e ↦ none ]
    ]
  ]

  abbrev pub secrets_for : Connector I O → String → List String
  secrets_for c operation = elim c.required_secrets [ none ↦ [] | some keys ↦ keys operation ]

  -- The tenant whose secrets are read, or the code of the error.
  unfoldable pub tenant_of : Adapter I O → Result String String
  tenant_of a = elim a.caller [
    | with_context t ↦ ok t
    | without_context ↦ err "TENANT_CONTEXT_MISSING"
    | no_module ↦ if not (a.tenant_id == "") then ok a.tenant_id else err "MODULE_MISSING"
  ]

  unfoldable pub with_vault : Vault → Connector I O → ConnectorRequest I → List String → Answer O
  unfolding convert remap
  with_vault vault c req keys = elim (vault keys) [
    | err e ↦ failed "SECRET_EXECUTION_FAILED"
    | ok secrets ↦
        convert "SECRET_EXECUTION_FAILED"
          (c.execute req.operation req.input (some (remap keys secrets)))
  ]

  unfoldable pub with_secrets :
      Adapter I O → Connector I O → ConnectorRequest I → List String → Answer O
  unfolding tenant_of with_vault
  with_secrets a c req keys = elim (tenant_of a) [
    | err code ↦ failed code
    | ok tenant ↦ elim a.vault_manager [
      | none ↦ failed "VOLTA_NOT_CONFIGURED"
      | some get_vault ↦ elim (get_vault tenant) [
        | err e ↦ failed "VAULT_UNAVAILABLE"
        | ok vault ↦ with_vault vault c req keys
      ]
    ]
  ]

  abbrev pub execute_with :
      Adapter I O → Connector I O → ConnectorRequest I → List String → Answer O
  execute_with a c req [] = convert "EXECUTION_FAILED" (c.execute req.operation req.input none)
  execute_with a c req (key ∷ keys) = with_secrets a c req (key ∷ keys)

  unfoldable pub call_connector : Adapter I O → ConnectorRequest I → Answer O
  unfolding select
  call_connector a req = elim (select a req) [
    | none ↦ failed "CONNECTOR_NOT_FOUND"
    | some c ↦ elim (c.validate req.operation req.input) [
      | some e ↦ failed "VALIDATION_FAILED"
      | none ↦ execute_with a c req (secrets_for c req.operation)
    ]
  ]
