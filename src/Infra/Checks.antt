-- ===== src/Infra/Checks.antt =====
-- `Validate` (internal/module/infra/template/validate.go), and `validateAtLeastOneCapability` and
-- `validateCrossCutting` (internal/module/infra/template/engine.go).
pub mod Laws
use release_engine.Prelude.{
  ℕ, String, Bool, true, false, not, ◌&&◌, ◌||◌, Option, none, some, List, [], ◌∷◌, ◌++◌, ◌==◌,
  if◌then◌else◌,
}
use release_engine.Infra.Params.{ProvisionParams}

-- The messages of `errs`.
pub data ParamError : Type 0 where
  required : (field : String) → ParamError
  secondary_region_required dr_required_critical backup_required_critical : ParamError
  backup_required_restricted bad_ttl : ParamError

pub data RequestError : Type 0 where
  no_capability kubernetes_and_vm block_store_without_vm unobserved_critical : RequestError

abbrev pub if_error : Bool → ParamError → List ParamError
if_error bad e = if bad then e ∷ [] else []

unfoldable pub missing_fields : List (String × String) → List ParamError
missing_fields [] = []
missing_fields ((name, value) ∷ fields) =
    if_error (value == "") (required name) ++ missing_fields fields

-- `is_date` is `time.Parse("2006-01-02", …)` without an error.
module _ {F : Type 0} where
  -- The fields that must not be empty, in the order of the checks.
  abbrev pub required_fields : ProvisionParams F → List (String × String)
  required_fields p =
      ("contract_version", p.contract_version)
      ∷ ("request_name", p.request_name)
      ∷ ("tenant", p.tenant)
      ∷ ("owner", p.owner)
      ∷ ("environment", p.environment)
      ∷ ("catalogue_item", p.catalogue_item)
      ∷ ("namespace", p.namespace)
      ∷ ("primary_region", p.primary_region)
      ∷ ("availability", p.availability)
      ∷ ("data_classification", p.data_classification)
      ∷ ("ingress_mode", p.ingress_mode)
      ∷ ("egress_mode", p.egress_mode)
      ∷ ("cost_centre", p.cost_centre)
      ∷ []

  unfoldable pub broken_rules : (is_date : String → Bool) → ProvisionParams F → List ParamError
  broken_rules is_date p =
      if_error (p.dr_required && p.secondary_region == "") secondary_region_required
      ++ if_error (p.availability == "critical" && not p.dr_required) dr_required_critical
      ++ if_error (p.availability == "critical" && not p.backup_required) backup_required_critical
      ++ if_error (p.data_classification == "restricted" && not p.backup_required)
          backup_required_restricted
      ++ if_error (not (p.ttl == "") && not (is_date p.ttl)) bad_ttl

  -- `Validate`: the errors, in order.
  unfoldable pub validate_provision :
      (is_date : String → Bool) → ProvisionParams F → List ParamError
  validate_provision is_date p = missing_fields (required_fields p) ++ broken_rules is_date p

  unfoldable pub has_capability : ProvisionParams F → Bool
  has_capability p =
      p.kubernetes.enabled || p.vm.enabled || p.database.enabled || p.object_store.enabled
      || p.block_store.enabled || p.file_store.enabled || p.vpc.enabled || p.messaging.enabled
      || p.cache.enabled || p.dns.enabled || p.load_balancer.enabled || p.cdn.enabled
      || p.identity.enabled || p.secrets.enabled || p.observability.enabled

  -- `validateAtLeastOneCapability`
  abbrev pub validate_at_least_one_capability : ProvisionParams F → Option RequestError
  validate_at_least_one_capability p = if not (has_capability p) then some no_capability else none

  -- `validateCrossCutting`
  unfoldable pub validate_cross_cutting : ProvisionParams F → Option RequestError
  validate_cross_cutting p =
      if p.vm.enabled && p.kubernetes.enabled
      then some kubernetes_and_vm
      else if p.block_store.enabled && not p.vm.enabled
      then some block_store_without_vm
      else if p.availability == "critical" && not p.observability.enabled
      then some unobserved_critical
      else none
