-- ===== src/Infra/Engine.antt =====
-- `applyCatalog`, `applyCatalogDefaults` and `Render` of internal/module/infra/template/engine.go, to where the
-- manifests are built. The parameters are a pointer: what a call leaves of them is part of its result.
pub mod Laws
use release_engine.Prelude.{
  ℕ, String, Bool, true, false, not, ◌&&◌, ◌||◌, Option, none, some, List, [], ◌∷◌, ◌++◌, ◌==◌,
  if◌then◌else◌, Dict, lookup, insert, any, Result, ok, err,
}
use release_engine.Infra.Params.{ProvisionParams}
use release_engine.Infra.Catalog.{
  TemplateCatalog, CatalogError, CapabilityInfo, DefaultValue, text, flag, other, validate_params,
  validate_capabilities,
}
use release_engine.Infra.Checks.{
  ParamError, RequestError, validate_provision, validate_at_least_one_capability,
  validate_cross_cutting,
}

-- `cat.Defaults[key].(string)` where the field is empty, and `.(bool)` where it is false.
unfoldable pub default_text : Dict DefaultValue → String → String → String
default_text defaults key value =
    if value == ""
    then elim (lookup key defaults) [
      | none ↦ value
      | some v ↦ elim v [ text s ↦ s | flag b ↦ value | other ↦ value ]
    ]
    else value

unfoldable pub default_flag : Dict DefaultValue → String → Bool → Bool
default_flag defaults key value = if value then true else elim (lookup key defaults) [
  | none ↦ false
  | some v ↦ elim v [ text s ↦ false | flag b ↦ b | other ↦ false ]
]

-- `Fragment`, by what its methods answer, with values of the type `V` and errors as texts.
pub record Fragment (F V : Type 0) : Type 0 where
  pub name : String
  pub applicable : ProvisionParams F → Bool
  pub validate : ProvisionParams F → Option String
  pub render : ProvisionParams F → Result String (Dict V)

pub data RenderError : Type 0 where
  catalog_not_found : RenderError
  catalog_refused : (e : CatalogError) → RenderError
  params_refused : (es : List ParamError) → RenderError
  request_refused : (e : RequestError) → RenderError
  fragment_refused fragment_failed : (name message : String) → RenderError

module _ {V : Type 0} where
  -- `for k, v := range part { specParts[k] = v }`
  unfoldable pub merge_parts : Dict V → Dict V → Dict V
  merge_parts parts [] = parts
  merge_parts parts ((k, v) ∷ part) = merge_parts (insert k v parts) part

module _ {F : Type 0} where
  -- `applyCatalogDefaults`
  unfoldable pub apply_catalog_defaults : ProvisionParams F → TemplateCatalog → ProvisionParams F
  apply_catalog_defaults p cat =
      let k = p.kubernetes in
      let db = p.database in
      let c = p.cache in
      let o = p.object_store in
      record p {
        kubernetes = record k { tier = default_text cat.defaults "kubernetes_tier" k.tier };
        database = record db {
          engine = default_text cat.defaults "database_engine" db.engine;
          tier = default_text cat.defaults "database_tier" db.tier;
          backup_enabled = default_flag cat.defaults "database_backup_enabled" db.backup_enabled;
        };
        cache = record c {
          engine = default_text cat.defaults "cache_engine" c.engine;
          tier = default_text cat.defaults "cache_tier" c.tier;
        };
        object_store = record o {
          class = default_text cat.defaults "object_storage_class" o.class;
          versioning = default_flag cat.defaults "object_storage_versioning" o.versioning;
        };
      }

  -- The capability map, in the order of the source.
  unfoldable pub capability_infos : ProvisionParams F → Dict CapabilityInfo
  capability_infos p =
      (
        "blockStorage",
        record { enabled = p.block_store.enabled; provider = p.block_store.provider },
      )
      ∷ ("cache", record { enabled = p.cache.enabled; provider = p.cache.provider })
      ∷ ("cdn", record { enabled = p.cdn.enabled; provider = p.cdn.provider })
      ∷ ("database", record { enabled = p.database.enabled; provider = p.database.provider })
      ∷ ("dns", record { enabled = p.dns.enabled; provider = p.dns.provider })
      ∷ ("fileStorage", record { enabled = p.file_store.enabled; provider = p.file_store.provider })
      ∷ ("identity", record { enabled = p.identity.enabled; provider = p.identity.provider })
      ∷ ("kubernetes", record { enabled = p.kubernetes.enabled; provider = p.kubernetes.provider })
      ∷ (
        "loadBalancer",
        record { enabled = p.load_balancer.enabled; provider = p.load_balancer.provider },
      )
      ∷ ("messaging", record { enabled = p.messaging.enabled; provider = p.messaging.provider })
      ∷ (
        "objectStorage",
        record { enabled = p.object_store.enabled; provider = p.object_store.provider },
      )
      ∷ (
        "observability",
        record { enabled = p.observability.enabled; provider = p.observability.provider },
      )
      ∷ ("secrets", record { enabled = p.secrets.enabled; provider = p.secrets.provider })
      ∷ ("vm", record { enabled = p.vm.enabled; provider = p.vm.provider })
      ∷ ("vpc", record { enabled = p.vpc.enabled; provider = p.vpc.provider })
      ∷ []

  unfoldable pub check_catalog : ProvisionParams F → TemplateCatalog → Option RenderError
  check_catalog p cat =
      elim (validate_params cat p.environment p.workload_profile p.availability p.residency) [
        | some e ↦ some (catalog_refused e)
        | none ↦ elim (validate_capabilities cat (capability_infos p) p.default_provider) [
          | some e ↦ some (catalog_refused e)
          | none ↦ none
        ]
      ]

  -- `applyCatalog`: the parameters it leaves, and its error.
  unfoldable pub apply_catalog :
      Dict TemplateCatalog → ProvisionParams F → ProvisionParams F × Option RenderError
  apply_catalog [] p = (p, none)
  apply_catalog (c ∷ cs) p =
      if p.catalogue_item == "" then (p, none) else elim (lookup p.catalogue_item (c ∷ cs)) [
        | none ↦ (p, some catalog_not_found)
        | some cat ↦ let filled = apply_catalog_defaults p cat in (filled, check_catalog filled cat)
      ]

  -- The checks of `Render`, up to the fragments.
  unfoldable pub check_request :
      (is_date : String → Bool)
      → Dict TemplateCatalog
      → ProvisionParams F
      → ProvisionParams F × Option RenderError
  check_request is_date catalogs p =
      let (q, refused) = apply_catalog catalogs p in
      (
        q,
        elim refused [
          | some e ↦ some e
          | none ↦ elim (validate_provision is_date q) [
            | e ∷ es ↦ some (params_refused (e ∷ es))
            | [] ↦ elim (validate_at_least_one_capability q) [
              | some e ↦ some (request_refused e)
              | none ↦ elim (validate_cross_cutting q) [
                | some e ↦ some (request_refused e)
                | none ↦ none
              ]
            ]
          ]
        ],
      )

  module _ {V : Type 0} where
    -- The loop over the fragments, to `specParts`.
    unfoldable pub render_fragments :
        ProvisionParams F → List (Fragment F V) → Dict V → Result RenderError (Dict V)
    render_fragments p [] parts = ok parts
    render_fragments p (f ∷ fs) parts =
        if not (f.applicable p) then render_fragments p fs parts else elim (f.validate p) [
          | some message ↦ err (fragment_refused f.name message)
          | none ↦ elim (f.render p) [
            | err message ↦ err (fragment_failed f.name message)
            | ok part ↦ render_fragments p fs (merge_parts parts part)
          ]
        ]

    -- `Render`, to `specParts`.
    unfoldable pub render_parts :
        (is_date : String → Bool)
        → Dict TemplateCatalog
        → List (Fragment F V)
        → ProvisionParams F
        → ProvisionParams F × Result RenderError (Dict V)
    render_parts is_date catalogs fragments p =
        let (q, refused) = check_request is_date catalogs p in
        (q, elim refused [ some e ↦ err e | none ↦ render_fragments q fragments [] ])
