-- ===== src/Infra/Storage/Laws.antt =====
-- What is stored is encrypted, and a restricted database can be recovered.
use mathlib.Core.Path.{subst}
use release_engine.Prelude.{
  ℕ, String, ◌≡◌, ◌≢◌, ◌⊎◌, refl, inl, inr, Bool, true, some, List, [], ◌∷◌, ◌==◌, map, arith,
  Bool-cases, Option-cases, eq_iff, Dict, lookup, All, AllEntries, Result, ok,
}
use release_engine.Infra.Capabilities.{BlockVolume}
use release_engine.Infra.Params.{ProvisionParams}
use release_engine.Infra.Catalog.{TemplateCatalog}
use release_engine.Infra.Spec.{Scalar, Spec, plain, object, objects, flag}
use release_engine.Infra.Engine.{render_parts, check_request}
use release_engine.Infra.Storage.{storage_fragments, database_fragment}
use release_engine.Infra.Storage.Render.{
  render_database, render_object_storage, render_block_storage, render_file_storage, render_cache,
  render_volume, database_backup,
}
use release_engine.Infra.Storage.Parts.{Keeps, fragments-AllEntries}
use release_engine.Infra.Storage.Database.{backed_up, must_back_up}

volumes_encrypted :
    (F : Type 0) (region : String) (vs : List BlockVolume)
    → All (λ v. lookup "encrypted" v ≡ some (flag true)) (map (render_volume {F = F} region) vs)
unfolding render_volume lookup
volumes_encrypted F region [] = tt
volumes_encrypted F region (v ∷ vs) = (refl, volumes_encrypted F region vs)

other_object : ◌≢◌ {A = String} "objectStorage" "database"
other_object e = ground (arith, e, eq_iff "objectStorage" "database")

other_block : ◌≢◌ {A = String} "blockStorage" "database"
other_block e = ground (arith, e, eq_iff "blockStorage" "database")

other_file : ◌≢◌ {A = String} "fileStorage" "database"
other_file e = ground (arith, e, eq_iff "fileStorage" "database")

other_cache : ◌≢◌ {A = String} "cache" "database"
other_cache e = ground (arith, e, eq_iff "cache" "database")

module _ {F : Type 0} where
  -- The part, or each of its volumes, is encrypted.
  abbrev pub IsEncrypted : Spec F → Type 0
  IsEncrypted spec =
      (lookup "encrypted" spec ≡ some (plain (flag true)))
      ⊎ ((volumes : List (Dict (Scalar F))) × (lookup "volumes" spec ≡ some (objects volumes))
          × All (λ v. lookup "encrypted" v ≡ some (flag true)) volumes)

  abbrev pub IsRecoverable : Spec F → Type 0
  IsRecoverable spec =
      (backup : Dict (Scalar F)) × (lookup "backup" spec ≡ some (object backup))
      × (lookup "pointInTimeRecovery" backup ≡ some (flag true))

  -- What must hold of the part of a request under a key.
  abbrev pub IsProtected : ProvisionParams F → String → Spec F → Type 0
  IsProtected p key spec =
      IsEncrypted spec
      × ((key ≢ "database") ⊎ (p.data_classification ≢ "restricted") ⊎ IsRecoverable spec)

  module _ (halves : ℕ → F) where
    one_part :
        (P : String → Spec F → Type 0) (key : String) (spec : Spec F) (part : Dict (Spec F))
        → P key spec
        → ◌≡◌ {A = Result String (Dict (Spec F))} (ok ((key, spec) ∷ [])) (ok part)
        → AllEntries P part
    one_part P key spec part h made =
        let same : (key, spec) ∷ [] ≡ part = cc in subst (λ m. AllEntries P m) same (h, tt)

    database_fragment-Keeps :
        (p : ProvisionParams F) → Keeps (IsProtected p) p (database_fragment halves)
    unfolding render_database lookup
    database_fragment-Keeps p part fine on made =
        one_part (IsProtected p) "database" (render_database halves p) part
          (
            inl refl,
            inr (elim (Bool-cases (p.data_classification == "restricted")) [
              | inr e ↦ inl (ground (arith, e, eq_iff p.data_classification "restricted"))
              | inl e ↦
                  let backed =
                    must_back_up p on fine ((eq_iff p.data_classification "restricted").0 e) in
                  inr (database_backup p, backed_up halves p backed, rw e (ground arith))
            ]),
          )
          made

    storage_fragments-Keeps :
        (p : ProvisionParams F) → All (Keeps (IsProtected p) p) (storage_fragments halves)
    unfolding render_object_storage render_block_storage render_file_storage render_cache lookup
    storage_fragments-Keeps p = (
      database_fragment-Keeps p,
      (
        λ part fine on made.
            one_part (IsProtected p) "objectStorage" _ part (inl refl, inl other_object) made,
        (
          λ part fine on made.
              one_part (IsProtected p) "blockStorage" _ part
                (
                  inr (_, refl, volumes_encrypted F p.primary_region p.block_store.volumes),
                  inl other_block,
                )
                made,
          (
            λ part fine on made.
                one_part (IsProtected p) "fileStorage" _ part (inl refl, inl other_file) made,
            (
              λ part fine on made.
                  one_part (IsProtected p) "cache" _ part (inl refl, inl other_cache) made,
              tt,
            ),
          ),
        ),
      ),
    )

    -- Of the parts that `Render` makes with the five fragments, each is encrypted, or has encrypted
    -- volumes only, and that of a database with restricted data has a backup with point-in-time
    -- recovery.
    pub render_parts-IsProtected :
        (is_date : String → Bool) (catalogs : Dict TemplateCatalog) (p : ProvisionParams F)
        (parts : Dict (Spec F))
        → (render_parts is_date catalogs (storage_fragments halves) p).1 ≡ ok parts
        → AllEntries
            (IsProtected (render_parts is_date catalogs (storage_fragments halves) p).0)
            parts
    unfolding render_parts
    render_parts-IsProtected is_date catalogs p parts h =
        let q = (check_request is_date catalogs p).0 in
        elim (Option-cases (check_request is_date catalogs p).1) [
          | inr (e, refused) ↦ absurd (let stuck = rw (refused, render_parts) at h in cc)
          | inl fine ↦
              fragments-AllEntries (IsProtected q) q (storage_fragments halves) [] parts
                (storage_fragments-Keeps q) tt (rw (fine, render_parts) at h)
        ]
