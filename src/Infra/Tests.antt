-- ===== src/Infra/Tests.antt =====
-- A critical request on Kubernetes under a template.
mod Blank
use release_engine.Prelude.{
  AllEntries, insert, String, ◌≡◌, ◌↔◌, refl, true, false, Option, none, some, List, [], ◌∷◌, Dict,
  lookup, any, Result, ok, err,
}
use release_engine.Prelude.Int.{ℤ, pos}
use release_engine.Infra.Tests.Blank.{no_database, no_kubernetes, no_observability, no_provision}
use release_engine.Infra.Params.{ProvisionParams}
use release_engine.Infra.Catalog.{
  validate_params, has_text, first_error, validate_provider, TemplateCatalog, DefaultValue, text,
  validate_capabilities, CapabilityInfo,
}
use release_engine.Infra.Catalog.Laws.{IsAdmissible, validate_capabilities_iff}
use release_engine.Infra.Checks.{
  validate_provision, missing_fields, broken_rules, has_capability, validate_cross_cutting,
}
use release_engine.Infra.Spec.{first_message}
use release_engine.Infra.Storage.{storage_fragments}
use release_engine.Infra.Storage.Validate.{validate_database}
use release_engine.Infra.Storage.Render.{render_database}
use release_engine.Infra.Storage.Laws.{IsProtected, render_parts-IsProtected}
use release_engine.Infra.Engine.{
  check_request, apply_catalog, check_catalog, render_fragments, default_flag, default_text,
  merge_parts, Fragment, render_parts, apply_catalog_defaults, capability_infos,
}
use release_engine.Infra.Engine.Laws.{
  IsProvisionable, AllValid, render_parts-IsProvisionable, apply_catalog_defaults_idem,
}

abbrev request : ProvisionParams (Unit {0})
request =
    let k = no_kubernetes in
    let o = no_observability in
    record no_provision {
      contract_version = "v1";
      request_name = "shop";
      tenant = "t1";
      owner = "ann";
      environment = "production";
      catalogue_item = "k8s-app";
      namespace = "shop";
      primary_region = "eu-1";
      secondary_region = "eu-2";
      availability = "critical";
      data_classification = "internal";
      ingress_mode = "public";
      egress_mode = "open";
      cost_centre = "c-1";
      dr_required = true;
      backup_required = true;
      kubernetes = record k { enabled = true };
      observability = record o { enabled = true };
    }

abbrev template : TemplateCatalog
template = record {
  name = "k8s-app";
  required_capabilities = "kubernetes" ∷ [];
  optional_capabilities = "observability" ∷ [];
  forbidden_capabilities = "vm" ∷ [];
  constraints = record {
    allowed_environments = "production" ∷ [];
    allowed_workload_profiles = [];
    allowed_availabilities = "high" ∷ "critical" ∷ [];
    allowed_residencies = [];
    allowed_providers = "aws" ∷ [];
    requires_approval = true;
  };
  defaults = ("kubernetes_tier", text "standard") ∷ [];
}

abbrev catalogs : Dict TemplateCatalog
catalogs = ("k8s-app", template) ∷ []

-- A fragment that renders the tier.
abbrev tier : Fragment (Unit {0}) String
tier = record {
  name = "kubernetes";
  applicable = λ p. p.kubernetes.enabled;
  validate = λ p. none;
  render = λ p. ok (("tier", p.kubernetes.tier) ∷ []);
}

render_parts-IsProvisionable_example :
    let q = (render_parts (λ s. true) catalogs (tier ∷ []) request).0 in
    IsProvisionable (λ s. true) catalogs q × AllValid q (tier ∷ [])
unfolding render_parts check_request apply_catalog lookup check_catalog validate_params has_text
    apply_catalog_defaults validate_capabilities first_error capability_infos validate_provider
    validate_provision missing_fields broken_rules has_capability validate_cross_cutting
    render_fragments default_flag default_text merge_parts insert
render_parts-IsProvisionable_example =
    render_parts-IsProvisionable (λ s. true) catalogs (tier ∷ []) request
      (("tier", "standard") ∷ []) refl

validate_capabilities_iff_example :
    (validate_capabilities template (capability_infos request) "" ≡ none)
    ↔ IsAdmissible template (capability_infos request) ""
validate_capabilities_iff_example = validate_capabilities_iff template (capability_infos request) ""

-- Restricted data in a database, with its backup.
abbrev database_request : ProvisionParams (Unit {0})
database_request =
    let db = no_database in
    record request {
      data_classification = "restricted";
      database = record db {
        enabled = true;
        engine = "postgres";
        tier = "standard";
        storage_gib = pos 20;
        backup_enabled = true;
      };
    }

render_parts-IsProtected_example :
    AllEntries
      (IsProtected (render_parts (λ s. true) [] (storage_fragments (λ n. tt)) database_request).0)
      (("database", render_database (λ n. tt) database_request) ∷ [])
unfolding render_parts check_request apply_catalog validate_provision missing_fields broken_rules
    has_capability validate_cross_cutting render_fragments merge_parts insert validate_database
    first_message
render_parts-IsProtected_example =
    render_parts-IsProtected (λ n. tt) (λ s. true) [] database_request
      (("database", render_database (λ n. tt) database_request) ∷ []) refl
