-- ===== src/Infra/Catalog/Laws.antt =====
-- What a template's constraints allow.
use mathlib.Core.List.{Memᴰ}
use mathlib.Core.Path.{subst}
use release_engine.Prelude.{
  ◌≢◌, eq_refl, if◌then◌else◌, String, ◌≡◌, ◌↔◌, ◌⊎◌, refl, inl, inr, true, false, Option, none,
  some, List, [], ◌∷◌, ◌==◌, All, arith, Bool-cases, Option-cases, Dict, any-find, any_of_mem,
  eq_iff,
}
use release_engine.Infra.Catalog.{
  is_excluded, TemplateCatalog, CatalogError, CapabilityInfo, first_error, has_text,
  validate_capabilities, validate_provider, is_enabled, effective_provider, capability_required,
  capability_forbidden, is_excluded,
}

first_error-none {ℓ} :
    {A : Type ℓ} (f : A → Option CatalogError) (xs : List A)
    → first_error f xs ≡ none
    → All (λ x. f x ≡ none) xs
unfolding first_error
first_error-none f [] e = tt
first_error-none f (x ∷ xs) e = elim (Option-cases (f x)) [
  | inl here ↦ (here, first_error-none f xs (rw (here, first_error) at e))
  | inr (err, hit) ↦ absurd (let stuck = rw (hit, first_error) at e in cc)
]

first_error-All {ℓ} :
    {A : Type ℓ} (f : A → Option CatalogError) (xs : List A)
    → All (λ x. f x ≡ none) xs
    → first_error f xs ≡ none
unfolding first_error
first_error-All f [] h = refl
first_error-All f (x ∷ xs) (here, there) = rw (here, first_error) (first_error-All f xs there)

-- No value is named, or the value is one of those named.
abbrev pub Allows : List String → String → Type 0
Allows xs x = (xs ≡ []) ⊎ Memᴰ x xs

pub excluded_iff : (xs : List String) (x : String) → (is_excluded xs x ≡ false) ↔ Allows xs x
unfolding has_text
excluded_iff [] x = (λ e. inl refl, λ h. refl)
excluded_iff (y ∷ ys) x = (
  λ e.
      let (z, m, same) = any-find (λ s. s == x) (y ∷ ys) (ground (arith, e)) in
      inr (subst (λ w. Memᴰ w (y ∷ ys)) ((eq_iff z x).0 same) m),
  λ h. elim h [
    | inl none_named ↦ cc
    | inr m ↦ ground (arith, any_of_mem (λ s. s == x) (y ∷ ys) m (eq_refl x))
  ],
)

-- The provider that counts for a capability: its own, else the request's, else aws.
abbrev IsProvider : String → CapabilityInfo → String → Type 0
IsProvider default_provider c p =
    (c.provider ≢ "") × (p ≡ c.provider)
    ⊎ ((c.provider ≡ "") × (default_provider ≢ "") × (p ≡ default_provider)
        ⊎ (c.provider ≡ "") × (default_provider ≡ "") × (p ≡ "aws"))

provider_iff :
    (default_provider : String) (c : CapabilityInfo) (p : String)
    → (p ≡ effective_provider default_provider c) ↔ IsProvider default_provider c p
provider_iff default_provider c p = elim (Bool-cases (c.provider == "")) [
  | inr own ↦ (
    λ h. inl (ground (arith, own, eq_iff c.provider ""), ground (arith, own, h)),
    λ h. elim h [
      | inl (given, same) ↦ ground (arith, own, same)
      | inr (inl (none_given, _, _)) ↦
          absurd (ground (arith, own, eq_iff c.provider "", none_given))
      | inr (inr (none_given, _, _)) ↦
          absurd (ground (arith, own, eq_iff c.provider "", none_given))
    ],
  )
  | inl none_given ↦ elim (Bool-cases (default_provider == "")) [
    | inr default ↦ (
      λ h. inr (
          inl (
            ground (arith, none_given, eq_iff c.provider ""),
            ground (arith, default, eq_iff default_provider ""),
            ground (arith, none_given, default, h),
          )),
      λ h. elim h [
        | inl (given, _) ↦ absurd (ground (arith, none_given, eq_iff c.provider "", given))
        | inr (inl (_, _, same)) ↦ ground (arith, none_given, default, same)
        | inr (inr (_, no_default, _)) ↦
            absurd (ground (arith, default, eq_iff default_provider "", no_default))
      ],
    )
    | inl no_default ↦ (
      λ h. inr (
          inr (
            ground (arith, none_given, eq_iff c.provider ""),
            ground (arith, no_default, eq_iff default_provider ""),
            ground (arith, none_given, no_default, h),
          )),
      λ h. elim h [
        | inl (given, _) ↦ absurd (ground (arith, none_given, eq_iff c.provider "", given))
        | inr (inl (_, default, _)) ↦
            absurd (ground (arith, no_default, eq_iff default_provider "", default))
        | inr (inr (_, _, same)) ↦ ground (arith, none_given, no_default, same)
      ],
    )
  ]
]

-- What a template asks of a request's capabilities.
pub record IsAdmissible (cat : TemplateCatalog) (capabilities : Dict CapabilityInfo)
    (default_provider : String) : Type 0 where
  pub required : All (λ name. is_enabled capabilities name ≡ true) cat.required_capabilities
  pub forbidden : All (λ name. is_enabled capabilities name ≡ false) cat.forbidden_capabilities
  pub provided :
      All
        (λ entry.
          (entry.1.enabled ≡ false)
          ⊎ (p : String) × IsProvider default_provider entry.1 p
            × Allows cat.constraints.allowed_providers p)
        capabilities

All-iff {ℓ κ} :
    {A : Type ℓ} (P Q : A → Type κ) → ((x : A) → P x → Q x) → (xs : List A) → All P xs → All Q xs
All-iff P Q f [] h = tt
All-iff P Q f (x ∷ xs) (here, there) = (f x here, All-iff P Q f xs there)

module _ (cat : TemplateCatalog) (capabilities : Dict CapabilityInfo)
    (default_provider : String) where
  abbrev provided : String × CapabilityInfo → Option CatalogError
  provided entry =
      if entry.1.enabled
      then validate_provider cat (effective_provider default_provider entry.1)
      else none

  abbrev missing : String → Option CatalogError
  missing name = if is_enabled capabilities name then none else some capability_required

  abbrev banned : String → Option CatalogError
  banned name = if is_enabled capabilities name then some capability_forbidden else none

  provided_iff :
      (entry : String × CapabilityInfo)
      → (provided entry ≡ none) ↔ (
          (entry.1.enabled ≡ false)
          ⊎ (p : String) × IsProvider default_provider entry.1 p
            × Allows cat.constraints.allowed_providers p)
  unfolding validate_provider
  provided_iff (name, c) =
      let excluded =
        excluded_iff cat.constraints.allowed_providers (effective_provider default_provider c) in
      (
        λ e. elim (Bool-cases c.enabled) [
          | inr off ↦ inl off
          | inl on ↦ inr (
            effective_provider default_provider c,
            (provider_iff default_provider c _).0 refl,
            excluded.0 (ground (arith, on, e)),
          )
        ],
        λ h. elim h [
          | inl off ↦ rw off refl
          | inr (p, is_provider, allowed) ↦
              let same = (provider_iff default_provider c p).1 is_provider in
              ground (arith, excluded.1 (rw same at allowed))
        ],
      )

  -- A template accepts the capabilities of a request exactly if all those that it requires are
  -- enabled, none that it forbids is, and the provider of each enabled one (its own, where it names
  -- none the request's default, and where there is none either aws) is among those that the template names, if it names any.
  pub validate_capabilities_iff :
      (validate_capabilities cat capabilities default_provider ≡ none)
      ↔ IsAdmissible cat capabilities default_provider
  unfolding validate_capabilities
  validate_capabilities_iff = (
    λ e. elim (Option-cases (first_error missing cat.required_capabilities)) [
      | inr (x, a) ↦ absurd (let stuck = rw (a, validate_capabilities) at e in cc)
      | inl a ↦ elim (Option-cases (first_error banned cat.forbidden_capabilities)) [
        | inr (x, b) ↦ absurd (let stuck = rw (a, b, validate_capabilities) at e in cc)
        | inl b ↦ record {
          required =
              All-iff (λ n. missing n ≡ none) (λ n. is_enabled capabilities n ≡ true)
                (λ n h. ground (arith, h)) _ (first_error-none missing cat.required_capabilities a);
          forbidden =
              All-iff (λ n. banned n ≡ none) (λ n. is_enabled capabilities n ≡ false)
                (λ n h. ground (arith, h)) _ (first_error-none banned cat.forbidden_capabilities b);
          provided =
              All-iff (λ x. provided x ≡ none) _ (λ x. (provided_iff x).0) capabilities
                (first_error-none provided capabilities (rw (a, b, validate_capabilities) at e));
        }
      ]
    ],
    λ h.
        let a = first_error-All missing cat.required_capabilities (
          All-iff (λ n. is_enabled capabilities n ≡ true) (λ n. missing n ≡ none) (λ n k. rw k refl)
            _ h.required) in
        let b = first_error-All banned cat.forbidden_capabilities (
          All-iff (λ n. is_enabled capabilities n ≡ false) (λ n. banned n ≡ none) (λ n k. rw k refl)
            _ h.forbidden) in
        rw (a, b, validate_capabilities)
          (first_error-All provided capabilities
            (All-iff _ (λ x. provided x ≡ none) (λ x. (provided_iff x).1) capabilities h.provided)),
  )
