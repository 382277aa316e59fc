-- ===== src/Infra/Storage/Validate.antt =====
-- `Validate` of the fragments that hold data: database.go, objectstorage.go, blockstorage.go, filestorage.go and
-- cache.go of internal/module/infra/template/fragments. An error is its message, less an index.
use release_engine.Prelude.{
  String, not, ◌&&◌, ◌||◌, Option, none, some, List, [], ◌∷◌, ◌==◌, if◌then◌else◌,
}
use release_engine.Infra.Capabilities.{BlockVolume}
use release_engine.Infra.Params.{ProvisionParams}
use release_engine.Infra.Resolve.{is_below_two, is_zero, is_positive}
use release_engine.Infra.Spec.{first_message}

unfoldable pub validate_volumes : List BlockVolume → Option String
validate_volumes [] = none
validate_volumes (v ∷ vs) =
    let rest = validate_volumes vs in
    if v.type == "provisioned" && is_zero v.iops
    then some "block_store.volumes.iops required for provisioned type"
    else if is_zero v.size_gib
    then some "block_store.volumes.size_gib is required"
    else rest

module _ {F : Type 0} where
  unfoldable pub validate_database : ProvisionParams F → Option String
  validate_database p =
      let db = p.database in
      if not db.enabled
      then none
      else first_message (
          (db.engine == "", "database.engine required when database.enabled is true")
          ∷ (db.tier == "", "database.tier required when database.enabled is true")
          ∷ (is_zero db.storage_gib, "database.storage_gib required when database.enabled is true")
          ∷ (
            db.tier == "serverless"
                && not (db.engine == "aurora-postgres" || db.engine == "aurora-mysql"),
            "serverless tier only supported for aurora engines",
          )
          ∷ (
            db.storage_type == "provisioned" && is_zero db.iops,
            "database.iops required when storage_type is provisioned",
          )
          ∷ (
            p.data_classification == "restricted" && not db.backup_enabled,
            "database.backup_enabled must be true for restricted data classification",
          )
          ∷ [])

  unfoldable pub validate_object_storage : ProvisionParams F → Option String
  validate_object_storage p =
      let s = p.object_store in
      if not s.enabled
      then none
      else first_message (
          (s.class == "", "object_store.class required when object_store.enabled is true")
          ∷ (
            p.data_classification == "restricted" && not s.versioning,
            "object_store.versioning must be true for restricted data classification",
          )
          ∷ [])

  unfoldable pub validate_block_storage : ProvisionParams F → Option String
  validate_block_storage p =
      let bs = p.block_store in
      if not bs.enabled then none else elim bs.volumes [
        | [] ↦ some "block_store.volumes required when block_store.enabled is true"
        | v ∷ vs ↦ validate_volumes (v ∷ vs)
      ]

  unfoldable pub validate_file_storage : ProvisionParams F → Option String
  validate_file_storage p =
      let fs = p.file_store in
      if not fs.enabled
      then none
      else first_message (
          (
            fs.throughput_mode == "provisioned" && is_zero fs.throughput_mibs,
            "file_store.throughput_mibs required when throughput_mode is provisioned",
          )
          ∷ (
            p.availability == "critical" && not fs.multi_az,
            "file_store.multi_az must be true when availability is critical",
          )
          ∷ [])

  unfoldable pub validate_cache : ProvisionParams F → Option String
  validate_cache p =
      let c = p.cache in
      if not c.enabled
      then none
      else first_message (
          (c.engine == "", "cache.engine required when cache.enabled is true")
          ∷ (c.tier == "", "cache.tier required when cache.enabled is true")
          ∷ (
            c.tier == "clustered" && not (is_positive c.replica_count),
            "cache.replica_count must be >= 1 for clustered tier",
          )
          ∷ (
            c.engine == "memcached" && c.tier == "clustered",
            "memcached does not support clustered tier",
          )
          ∷ (
            p.availability == "critical" && is_below_two c.replica_count,
            "cache.replica_count must be >= 2 for critical availability",
          )
          ∷ [])
