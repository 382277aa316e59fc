-- ===== src/Connectors/Setup.antt =====
-- internal/connector/setup.go, and `DefaultFamilies` of internal/connector/config.go.
pub mod Laws
use release_engine.Prelude.{String, List, [], ◌∷◌, Result, ok, err}
use release_engine.Connectors.Family.{
  OperationContract, ConnectorFamily, FamilyError, Families, register_family,
}

abbrev contract : List String → List String → OperationContract
contract ins outs = record { required_input_fields = ins; required_output_fields = outs }

abbrev pub git_family : ConnectorFamily
git_family = record {
  name = "git";
  members = "git-github" ∷ "git-gitea" ∷ "git-file" ∷ [];
  operations =
      (
        "commit_files",
        contract ("repo" ∷ "branch" ∷ "path_prefix" ∷ "files" ∷ "message" ∷ "idempotency_key" ∷ [])
            ("commit_sha" ∷ "changed" ∷ []),
      )
      ∷ (
        "read_file",
        contract ("repo" ∷ "branch" ∷ "path" ∷ []) ("content" ∷ "sha" ∷ "status" ∷ []),
      )
      ∷ [];
}

abbrev pub policy_family : ConnectorFamily
policy_family = record {
  name = "policy";
  members = "policy-embedded" ∷ "policy-pmock" ∷ "policy-opa" ∷ [];
  operations =
      ("evaluate", contract ("policy_bundle" ∷ "resource" ∷ []) ("allowed" ∷ "violations" ∷ []))
      ∷ [];
}

abbrev pub webhook_family : ConnectorFamily
webhook_family = record {
  name = "webhook";
  members = "webhook-webhook" ∷ "webhook-wmock" ∷ "webhook-http" ∷ [];
  operations =
      (
        "post_callback",
        contract ("url" ∷ "headers" ∷ "body" ∷ "idempotency_key" ∷ [])
            ("status_code" ∷ "response_body" ∷ []),
      )
      ∷ [];
}

abbrev pub infra_family : ConnectorFamily
infra_family = record {
  name = "infra";
  members = "infra-crossplane" ∷ "infra-crossplaneMock" ∷ [];
  operations = ("apply", contract ("manifest" ∷ []) ("applied" ∷ "status" ∷ [])) ∷ [];
}

abbrev pub default_families : List ConnectorFamily
default_families = git_family ∷ policy_family ∷ webhook_family ∷ infra_family ∷ []

-- The loop of `SetupFamilyRegistry`.
abbrev pub register_families : List ConnectorFamily → Families → Result FamilyError Families
register_families [] fs = ok fs
register_families (f ∷ rest) fs =
    let (fs', r) = register_family f fs in
    elim r [ ok u ↦ register_families rest fs' | err e ↦ err e ]

-- `SetupFamilyRegistry`; its path is not read.
abbrev pub setup_family_registry : Result FamilyError Families
setup_family_registry = register_families default_families []
