-- ===== src/Infra/Catalog.antt =====
-- internal/module/infra/template/catalog/catalog.go. The definitions are read from the YAML files of the
-- binary: here they are given.
pub mod Laws
use release_engine.Prelude.{
  ℕ, String, Bool, true, false, not, ◌&&◌, ◌||◌, Option, none, some, List, [], ◌∷◌, ◌++◌, ◌==◌, any,
  length, leb, if◌then◌else◌, Dict, lookup,
}

-- A value of the `defaults`.
pub data DefaultValue : Type 0 where
  text : (value : String) → DefaultValue
  flag : (value : Bool) → DefaultValue
  other : DefaultValue

-- `CatalogConstraints`, less the cost, which is carried and never read.
pub record CatalogConstraints : Type 0 where
  pub allowed_environments : List String
  pub allowed_workload_profiles : List String
  pub allowed_availabilities : List String
  pub allowed_residencies : List String
  pub allowed_providers : List String
  pub requires_approval : Bool

pub record TemplateCatalog : Type 0 where
  pub name : String
  pub required_capabilities : List String
  pub optional_capabilities : List String
  pub forbidden_capabilities : List String
  pub constraints : CatalogConstraints
  pub defaults : Dict DefaultValue

pub data CatalogError : Type 0 where
  unknown_capability unsupported_provider environment_not_allowed workload_profile_not_allowed :
      CatalogError
  availability_not_allowed residency_not_allowed provider_not_allowed : CatalogError
  capability_required capability_forbidden : CatalogError

-- `contains`
unfoldable pub has_text : List String → String → Bool
has_text haystack needle = any (λ s. s == needle) haystack

-- `len(xs) > 0 && !contains(xs, x)`
abbrev pub is_excluded : List String → String → Bool
is_excluded xs x = leb 1 (length xs) && not (has_text xs x)

-- The first error of a loop.
unfoldable pub first_error {ℓ} :
    {A : Type ℓ} → (A → Option CatalogError) → List A → Option CatalogError
first_error f [] = none
first_error f (x ∷ xs) = let rest = first_error f xs in elim (f x) [ some e ↦ some e | none ↦ rest ]

-- `supportedProviders[cap]`
abbrev pub providers_of : Dict (List String) → String → List String
providers_of supported cap = elim (lookup cap supported) [ none ↦ [] | some ps ↦ ps ]

unfoldable pub validate_catalog : Dict (List String) → TemplateCatalog → Option CatalogError
validate_catalog supported cat =
    let unknown =
      first_error
        (λ cap. elim (lookup cap supported) [ none ↦ some unknown_capability | some ps ↦ none ])
        (cat.required_capabilities ++ cat.optional_capabilities) in
    let unsupported =
      first_error
        (λ provider.
          if any (λ cap. has_text (providers_of supported cap) provider) cat.required_capabilities
          then none
          else some unsupported_provider)
        cat.constraints.allowed_providers in
    elim unknown [ some e ↦ some e | none ↦ unsupported ]

-- `ValidateCatalogs`
unfoldable pub validate_catalogs : Dict TemplateCatalog → Dict (List String) → Option CatalogError
validate_catalogs catalogs supported =
    first_error (λ entry. validate_catalog supported entry.1) catalogs

-- `ValidateParams`
unfoldable pub validate_params :
    TemplateCatalog
    → (environment workload_profile availability residency : String) → Option CatalogError
validate_params cat environment workload_profile availability residency =
    if is_excluded cat.constraints.allowed_environments environment
    then some environment_not_allowed
    else if is_excluded cat.constraints.allowed_workload_profiles workload_profile
    then some workload_profile_not_allowed
    else if is_excluded cat.constraints.allowed_availabilities availability
    then some availability_not_allowed
    else if is_excluded cat.constraints.allowed_residencies residency
    then some residency_not_allowed
    else none

-- `ValidateProvider`
unfoldable pub validate_provider : TemplateCatalog → String → Option CatalogError
validate_provider cat provider =
    if is_excluded cat.constraints.allowed_providers provider
    then some provider_not_allowed
    else none

pub record CapabilityInfo : Type 0 where
  pub enabled : Bool
  pub provider : String

abbrev pub is_enabled : Dict CapabilityInfo → String → Bool
is_enabled capabilities name = elim (lookup name capabilities) [ none ↦ false | some c ↦ c.enabled ]

-- The capability's provider, the request's, or aws.
abbrev pub effective_provider : String → CapabilityInfo → String
effective_provider default_provider c =
    if not (c.provider == "")
    then c.provider
    else if not (default_provider == "")
    then default_provider
    else "aws"

-- `ValidateCapabilities`
unfoldable pub validate_capabilities :
    TemplateCatalog → Dict CapabilityInfo → (default_provider : String) → Option CatalogError
validate_capabilities cat capabilities default_provider =
    let missing =
      first_error (λ name. if is_enabled capabilities name then none else some capability_required)
        cat.required_capabilities in
    let forbidden =
      first_error (λ name. if is_enabled capabilities name then some capability_forbidden else none)
        cat.forbidden_capabilities in
    let provided =
      first_error
        (λ entry.
          if entry.1.enabled
          then validate_provider cat (effective_provider default_provider entry.1)
          else none)
        capabilities in
    elim missing [ some e ↦ some e | none ↦ elim forbidden [ some e ↦ some e | none ↦ provided ] ]
