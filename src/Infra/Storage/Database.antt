-- ===== src/Infra/Storage/Database.antt =====
-- The backup of a database.
use mathlib.Core.Path.{◌∙◌}
use release_engine.Prelude.{
  ℕ, String, ◌≡◌, refl, inl, inr, Bool, true, false, none, some, List, [], ◌∷◌, ◌++◌, ◌==◌, arith,
  Bool-cases, eq_iff, lookup, All,
}
use release_engine.Infra.Params.{ProvisionParams}
use release_engine.Infra.Spec.{SpecValue, Spec, object, written, first_message}
use release_engine.Infra.Storage.Validate.{validate_database}
use release_engine.Infra.Storage.Render.{
  render_database, database_tier, database_base, database_rest, database_backup, database_rest,
}

first_message-All :
    (cs : List (Bool × String)) → first_message cs ≡ none → All (λ c. c.0 ≡ false) cs
unfolding first_message
first_message-All [] h = tt
first_message-All ((bad, message) ∷ cs) h = elim (Bool-cases bad) [
  | inl e ↦ absurd (let stuck = rw e at h in cc)
  | inr e ↦ (e, first_message-All cs (rw e at h))
]

module _ {F : Type 0} where
  lookup-append :
      (key : String) (xs ys : Spec F) → lookup key xs ≡ none → lookup key (xs ++ ys) ≡ lookup key ys
  unfolding lookup
  lookup-append key [] ys h = refl
  lookup-append key ((k, v) ∷ xs) ys h = elim (Bool-cases (k == key)) [
    | inl e ↦ absurd (let stuck = rw (e, lookup) at h in cc)
    | inr e ↦ rw (e, lookup) (lookup-append key xs ys (rw (e, lookup) at h))
  ]

  lookup-append_some :
      (key : String) (xs ys : Spec F) (v : SpecValue F)
      → lookup key xs ≡ some v
      → lookup key (xs ++ ys) ≡ some v
  unfolding lookup
  lookup-append_some key [] ys v h = cc
  lookup-append_some key ((k, w) ∷ xs) ys v h = elim (Bool-cases (k == key)) [
    | inl e ↦ rw (e, lookup) (rw (e, lookup) at h)
    | inr e ↦ rw (e, lookup) (lookup-append_some key xs ys v (rw (e, lookup) at h))
  ]

  found_after :
      (before tier rest : Spec F) (v : SpecValue F) (b : Bool)
      → lookup "backup" before ≡ none
      → lookup "backup" tier ≡ none
      → b ≡ true
      → lookup "backup" (before ++ tier ++ written b (("backup", v) ∷ []) ++ rest) ≡ some v
  unfolding lookup
  found_after before tier rest v false h k e = cc
  found_after before tier rest v true h k e =
      let absent = lookup-append "backup" before tier h ∙ k in
      lookup-append_some "backup" ((before ++ tier) ++ ("backup", v) ∷ []) rest v
        (lookup-append "backup" (before ++ tier) (("backup", v) ∷ []) absent)

  no_backup_base : (p : ProvisionParams F) → lookup "backup" (database_base p) ≡ none
  unfolding lookup
  no_backup_base p = elim (Bool-cases (p.database.storage_type == "provisioned")) [
    | inl e ↦ rw e refl
    | inr e ↦ rw e refl
  ]

  pub must_back_up :
      (p : ProvisionParams F)
      → p.database.enabled ≡ true
      → validate_database p ≡ none
      → p.data_classification ≡ "restricted"
      → p.database.backup_enabled ≡ true
  unfolding validate_database
  must_back_up p on fine restricted =
      let passed = first_message-All _ (rw on at fine) in
      let backed = passed.1.1.1.1.1.0 in
      ground (arith, backed, restricted, eq_iff p.data_classification "restricted")

  module _ (halves : ℕ → F) where
    no_backup_tier : (p : ProvisionParams F) → lookup "backup" (database_tier halves p) ≡ none
    unfolding lookup database_tier
    no_backup_tier p = elim (Bool-cases (p.database.tier == "standard")) [
      | inl a ↦ rw a refl
      | inr a ↦ elim (Bool-cases (p.database.tier == "highly-available")) [
        | inl b ↦ rw (a, b) refl
        | inr b ↦ elim (Bool-cases (p.database.tier == "serverless")) [
          | inl c ↦ rw (a, b, c) refl
          | inr c ↦ rw (a, b, c) refl
        ]
      ]
    ]

    pub backed_up :
        (p : ProvisionParams F)
        → p.database.backup_enabled ≡ true
        → lookup "backup" (render_database halves p) ≡ some (object (database_backup p))
    unfolding render_database
    backed_up p h =
        found_after (database_base p) (database_tier halves p) (database_rest p)
          (object (database_backup p)) p.database.backup_enabled (no_backup_base p)
          (no_backup_tier p) h
