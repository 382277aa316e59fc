-- ===== src/Infra/Engine/Laws.antt =====
-- What the checks of `Render` accept, and what the defaults of a template fill in.
use release_engine.Prelude.{
  ok, Result-cases, String, ◌≡◌, ◌≢◌, ◌⊎◌, refl, inl, inr, Bool, true, false, none, some, List, [],
  ◌∷◌, ◌==◌, arith, Bool-cases, Option-cases, eq_iff, Dict, lookup, All,
}
use release_engine.Infra.Params.{ProvisionParams}
use release_engine.Infra.Catalog.{
  TemplateCatalog, DefaultValue, validate_params, validate_capabilities, is_excluded,
}
use release_engine.Infra.Catalog.Laws.{
  Allows, IsAdmissible, validate_capabilities_iff, excluded_iff,
}
use release_engine.Infra.Checks.{validate_provision, validate_cross_cutting, has_capability}
use release_engine.Infra.Checks.Laws.{IsComplete, validate_provision_iff}
use release_engine.Infra.Engine.{
  default_text, default_flag, apply_catalog_defaults, apply_catalog, check_catalog, check_request,
  capability_infos, Fragment, render_fragments, render_parts, merge_parts, Fragment,
  render_fragments, render_parts, merge_parts,
}

default_text_idem :
    (d : Dict DefaultValue) (key value : String)
    → default_text d key (default_text d key value) ≡ default_text d key value
unfolding default_text
default_text_idem d key value = ground arith

default_flag_idem :
    (d : Dict DefaultValue) (key : String) (value : Bool)
    → default_flag d key (default_flag d key value) ≡ default_flag d key value
unfolding default_flag
default_flag_idem d key value = ground arith

params_lem :
    (cat : TemplateCatalog) (environment workload_profile availability residency : String)
    → validate_params cat environment workload_profile availability residency ≡ none
    → (is_excluded cat.constraints.allowed_environments environment ≡ false)
      × (is_excluded cat.constraints.allowed_workload_profiles workload_profile ≡ false)
      × (is_excluded cat.constraints.allowed_availabilities availability ≡ false)
      × (is_excluded cat.constraints.allowed_residencies residency ≡ false)
unfolding validate_params
params_lem cat environment workload_profile availability residency h = ground (arith, h)

module _ {F : Type 0} where
  -- The defaults of a template are filled in once: a second application changes nothing.
  pub apply_catalog_defaults_idem :
      (p : ProvisionParams F) (cat : TemplateCatalog)
      → apply_catalog_defaults (apply_catalog_defaults p cat) cat ≡ apply_catalog_defaults p cat
  unfolding apply_catalog_defaults
  apply_catalog_defaults_idem p cat = simp (default_text_idem, default_flag_idem)

  -- The dimensions that a template names.
  pub record FitsTemplate (p : ProvisionParams F) (cat : TemplateCatalog) : Type 0 where
    pub environment : Allows cat.constraints.allowed_environments p.environment
    pub workload_profile : Allows cat.constraints.allowed_workload_profiles p.workload_profile
    pub availability : Allows cat.constraints.allowed_availabilities p.availability
    pub residency : Allows cat.constraints.allowed_residencies p.residency
    pub capabilities : IsAdmissible cat (capability_infos p) p.default_provider

  check_catalog-FitsTemplate :
      (p : ProvisionParams F) (cat : TemplateCatalog)
      → check_catalog p cat ≡ none
      → FitsTemplate p cat
  unfolding check_catalog
  check_catalog-FitsTemplate p cat h =
      elim (Option-cases
        (validate_params cat p.environment p.workload_profile p.availability p.residency)) [
          | inr (e, a) ↦ absurd (let stuck = rw (a, check_catalog) at h in cc)
          | inl a ↦
              elim (Option-cases
                (validate_capabilities cat (capability_infos p) p.default_provider)) [
                  | inr (e, b) ↦ absurd (let stuck = rw (a, b, check_catalog) at h in cc)
                  | inl b ↦
                      let (env, profile, available, resident) =
                        params_lem cat p.environment p.workload_profile p.availability p.residency
                          a in
                      record {
                        environment = (excluded_iff _ _).0 env;
                        workload_profile = (excluded_iff _ _).0 profile;
                        availability = (excluded_iff _ _).0 available;
                        residency = (excluded_iff _ _).0 resident;
                        capabilities =
                            (validate_capabilities_iff cat (capability_infos p)
                                p.default_provider).0
                              b;
                      }
                ]
        ]

  -- A request that `Render` takes to its fragments.
  pub record IsProvisionable (is_date : String → Bool) (catalogs : Dict TemplateCatalog)
      (p : ProvisionParams F) : Type 0 where
    pub complete : IsComplete is_date p
    pub capable : has_capability p ≡ true
    pub one_compute : (p.vm.enabled ≡ false) ⊎ (p.kubernetes.enabled ≡ false)
    pub attached : (p.block_store.enabled ≡ false) ⊎ (p.vm.enabled ≡ true)
    pub observed : (p.availability ≢ "critical") ⊎ (p.observability.enabled ≡ true)
    pub template :
        (catalogs ≡ [])
        ⊎ ((cat : TemplateCatalog) × (lookup p.catalogue_item catalogs ≡ some cat)
            × FitsTemplate p cat)

  apply_catalog-FitsTemplate :
      (catalogs : Dict TemplateCatalog) (p : ProvisionParams F)
      → (apply_catalog catalogs p).1 ≡ none
      → let q = (apply_catalog catalogs p).0 in
        q.catalogue_item ≢ ""
        → (catalogs ≡ [])
          ⊎ ((cat : TemplateCatalog) × (lookup q.catalogue_item catalogs ≡ some cat)
              × FitsTemplate q cat)
  unfolding apply_catalog apply_catalog_defaults
  apply_catalog-FitsTemplate [] p h named = inl refl
  apply_catalog-FitsTemplate (c ∷ cs) p h named = elim (Bool-cases (p.catalogue_item == "")) [
    | inl e ↦ absurd ((rw (e, apply_catalog) at named) ((eq_iff p.catalogue_item "").0 e))
    | inr e ↦ elim (Option-cases (lookup p.catalogue_item (c ∷ cs))) [
      | inl k ↦ absurd (let stuck = rw (e, k, apply_catalog) at h in cc)
      | inr (cat, k) ↦
          let filled = apply_catalog_defaults p cat in
          let call : apply_catalog (c ∷ cs) p ≡ (filled, check_catalog filled cat) =
            rw (e, k, apply_catalog) refl in
          rw call (inr (cat, k, check_catalog-FitsTemplate filled cat (rw call at h)))
    ]
  ]

  cross_cutting_lem :
      (p : ProvisionParams F)
      → validate_cross_cutting p ≡ none
      → ((p.vm.enabled ≡ false) ⊎ (p.kubernetes.enabled ≡ false))
        × ((p.block_store.enabled ≡ false) ⊎ (p.vm.enabled ≡ true))
        × ((p.availability ≢ "critical") ⊎ (p.observability.enabled ≡ true))
  unfolding validate_cross_cutting
  cross_cutting_lem p h = ground (arith, h, eq_iff p.availability "critical")

  checks_lem :
      (is_date : String → Bool) (catalogs : Dict TemplateCatalog) (p : ProvisionParams F)
      → (check_request is_date catalogs p).1 ≡ none
      → let (q, refused) = apply_catalog catalogs p in
        (refused ≡ none)
        × (validate_provision is_date q ≡ [])
        × (has_capability q ≡ true)
        × (validate_cross_cutting q ≡ none)
  unfolding check_request
  checks_lem is_date catalogs p h = ground (arith, h)

  check_request-IsProvisionable :
      (is_date : String → Bool) (catalogs : Dict TemplateCatalog) (p : ProvisionParams F)
      → (check_request is_date catalogs p).1 ≡ none
      → IsProvisionable is_date catalogs (check_request is_date catalogs p).0
  unfolding check_request
  check_request-IsProvisionable is_date catalogs p h =
      let q = (apply_catalog catalogs p).0 in
      let (fits, valid, capable, crossed) = checks_lem is_date catalogs p h in
      let complete = (validate_provision_iff is_date q).0 valid in
      let (one, attached, observed) = cross_cutting_lem q crossed in
      record {
        complete = complete;
        capable = capable;
        one_compute = one;
        attached = attached;
        observed = observed;
        template = apply_catalog-FitsTemplate catalogs p fits complete.named.1.1.1.1.1.0;
      }

  module _ {V : Type 0} where
    -- Every fragment that applies has passed its own validation.
    abbrev pub AllValid : ProvisionParams F → List (Fragment F V) → Type 0
    AllValid p fragments = All (λ f. (f.applicable p ≡ false) ⊎ (f.validate p ≡ none)) fragments

    fragments_lem :
        (p : ProvisionParams F) (fragments : List (Fragment F V)) (parts parts' : Dict V)
        → render_fragments p fragments parts ≡ ok parts'
        → AllValid p fragments
    unfolding render_fragments
    fragments_lem p [] parts parts' h = tt
    fragments_lem p (f ∷ fs) parts parts' h = elim (Bool-cases (f.applicable p)) [
      | inr off ↦ (inl off, fragments_lem p fs parts parts' (rw (off, render_fragments) at h))
      | inl on ↦ elim (Option-cases (f.validate p)) [
        | inr (message, bad) ↦ absurd (let stuck = rw (on, bad, render_fragments) at h in cc)
        | inl fine ↦ elim (Result-cases (f.render p)) [
          | inr (message, bad) ↦
              absurd (let stuck = rw (on, fine, bad, render_fragments) at h in cc)
          | inl (part, done) ↦ (
            inr fine,
            fragments_lem p fs (merge_parts parts part) parts'
                (rw (on, fine, done, render_fragments) at h),
          )
        ]
      ]
    ]

    -- Where `Render` gets to the building of manifests, the request, with the defaults filled in, is
    -- complete, has a capability, no virtual machines beside Kubernetes and no block store without
    -- virtual machines, is observed if it is critical, and, where there are templates, has one that
    -- allows its environment, profile, availability, residency, capabilities and providers; and
    -- every fragment that applies to it has passed its own validation.
    pub render_parts-IsProvisionable :
        (is_date : String → Bool) (catalogs : Dict TemplateCatalog)
        (fragments : List (Fragment F V)) (p : ProvisionParams F) (parts : Dict V)
        → (render_parts is_date catalogs fragments p).1 ≡ ok parts
        → let q = (render_parts is_date catalogs fragments p).0 in
          IsProvisionable is_date catalogs q × AllValid q fragments
    unfolding render_parts
    render_parts-IsProvisionable is_date catalogs fragments p parts h =
        elim (Option-cases (check_request is_date catalogs p).1) [
          | inr (e, refused) ↦ absurd (let stuck = rw (refused, render_parts) at h in cc)
          | inl fine ↦ (
            check_request-IsProvisionable is_date catalogs p fine,
            fragments_lem (check_request is_date catalogs p).0 fragments [] parts
                (rw (fine, render_parts) at h),
          )
        ]
