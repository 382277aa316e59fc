-- ===== src/Infra/Storage/Render.antt =====
-- `Render` of the fragments that hold data: database.go, objectstorage.go, blockstorage.go, filestorage.go and
-- cache.go of internal/module/infra/template/fragments. `halves n` is the float64 n / 2.
use release_engine.Prelude.{
  leb, ℕ, String, true, false, not, ◌||◌, [], ◌∷◌, ◌++◌, ◌==◌, map, if◌then◌else◌, Dict, any,
}
use release_engine.Prelude.Int.{ℤ, pos, negsuc}
use release_engine.Infra.Capabilities.{BlockVolume}
use release_engine.Infra.Params.{ProvisionParams}
use release_engine.Infra.Resolve.{
  is_zero, is_positive, coalesce, disk_type_to_cloud, db_instance_class, read_replicas,
  default_backup_retention, serverless_min_acu, serverless_max_acu, cache_node_type,
  cache_engine_version, cache_shard_count, maintenance_window, backup_window, db_replication_type,
}
use release_engine.Infra.Spec.{
  Scalar, Spec, text, number, real, flag, object, objects, written, entry, has_recovery,
  replication,
}

-- `maxInt(days, 90)`
abbrev pub at_least_ninety : ℤ → ℤ
at_least_ninety (pos n) = if leb n 90 then pos 90 else pos n
at_least_ninety (negsuc n) = pos 90

module _ {F : Type 0} where
  abbrev pub database_backup : ProvisionParams F → Dict (Scalar F)
  database_backup p =
      let db = p.database in
      let retention =
        if is_zero db.backup_retention_days
        then default_backup_retention p.data_classification
        else db.backup_retention_days in
      ("enabled", flag true)
      ∷ ("retentionDays", number retention)
      ∷ ("window", text backup_window)
      ∷ (
        "pointInTimeRecovery",
        flag (db.point_in_time_recovery || p.data_classification == "restricted"),
      )
      ∷ []

  -- What is written before the cases.
  abbrev pub database_base : ProvisionParams F → Spec F
  database_base p =
      let db = p.database in
      entry "enabled" (flag true)
      ∷ entry "engine" (text db.engine)
      ∷ entry "tier" (text db.tier)
      ∷ entry "storageGiB" (number db.storage_gib)
      ∷ entry "region" (text p.primary_region)
      ∷ entry "encrypted" (flag true)
      ∷ entry "storageType" (text (disk_type_to_cloud (coalesce db.storage_type "ssd")))
      ∷ written (db.storage_type == "provisioned") (entry "iops" (number db.iops) ∷ [])

  abbrev pub database_rest : ProvisionParams F → Spec F
  database_rest p =
      let db = p.database in
      entry "maintenanceWindow"
          (text (coalesce db.maintenance_window (maintenance_window p.environment)))
        ∷ written (not (db.parameter_group == ""))
            (entry "parameterGroup" (text db.parameter_group) ∷ [])
      ++ written (has_recovery p) (
          (
            "disasterRecovery",
            object (
                ("enabled", flag true)
                ∷ ("secondaryRegion", text p.secondary_region)
                ∷ ("replicationType", text (db_replication_type db.engine))
                ∷ []),
          )
          ∷ [])

  module _ (halves : ℕ → F) where
    -- The cases of the tier.
    unfoldable pub database_tier : ProvisionParams F → Spec F
    database_tier p =
        let db = p.database in
        if db.tier == "standard"
        then (entry "instanceClass" (text (db_instance_class "standard"))
            ∷ entry "multiAZ" (flag false)
            ∷ entry "replicas" (number (pos 0))
            ∷ [])
        else if db.tier == "highly-available"
        then (entry "instanceClass" (text (db_instance_class "ha"))
            ∷ entry "multiAZ" (flag true)
            ∷ entry "replicas" (number (read_replicas p.availability))
            ∷ [])
        else if db.tier == "serverless"
        then (entry "minCapacity" (real (halves (serverless_min_acu p.workload_profile)))
            ∷ entry "maxCapacity" (real (halves (serverless_max_acu p.workload_profile)))
            ∷ [])
        else []

    unfoldable pub render_database : ProvisionParams F → Spec F
    render_database p =
        database_base p
        ++ database_tier p
        ++ written p.database.backup_enabled (("backup", object (database_backup p)) ∷ [])
        ++ database_rest p

  abbrev pub lifecycle : String → ℕ → Dict (Scalar F)
  lifecycle transition days = ("transition", text transition) ∷ ("days", number (pos days)) ∷ []

  unfoldable pub render_object_storage : ProvisionParams F → Spec F
  render_object_storage p =
      let s = p.object_store in
      entry "enabled" (flag true)
        ∷ entry "class" (text s.class)
        ∷ entry "versioning" (flag s.versioning)
        ∷ entry "region" (text p.primary_region)
        ∷ entry "encrypted" (flag true)
        ∷ entry "blockPublicAccess" (flag true)
        ∷ entry "bucketCount" (number (if is_zero s.bucket_count then pos 1 else s.bucket_count))
        ∷ written (s.class == "infrequent")
            (("lifecycleRules", objects (lifecycle "STANDARD_IA" 30 ∷ [])) ∷ [])
      ++ written (s.class == "archive") (
          ("lifecycleRules", objects (lifecycle "STANDARD_IA" 30 ∷ lifecycle "GLACIER" 90 ∷ []))
          ∷ [])
      ++ written (is_positive s.retention_days) (
          (
            "retention",
            object (("mode", text "GOVERNANCE") ∷ ("days", number s.retention_days) ∷ []),
          )
          ∷ [])
      ++ replication p
      ++ written (any (λ c. c == "gdpr") p.compliance) (
          (
            "objectLock",
            object (
                ("enabled", flag true)
                ∷ ("retentionMode", text "GOVERNANCE")
                ∷ ("retentionDays", number (at_least_ninety s.retention_days))
                ∷ []),
          )
          ∷ [])

  -- An element of `volumes`.
  unfoldable pub render_volume : String → BlockVolume → Dict (Scalar F)
  render_volume region v =
      ("name", text v.name)
        ∷ ("sizeGiB", number v.size_gib)
        ∷ ("type", text (disk_type_to_cloud v.type))
        ∷ ("multiAZ", flag v.multi_az)
        ∷ ("encrypted", flag true)
        ∷ ("region", text region)
        ∷ written (v.type == "provisioned") (
            ("iops", number v.iops)
            ∷ written (is_positive v.throughput) (("throughput", number v.throughput) ∷ []))
      ++ written (not (v.snapshot_schedule == ""))
          (("snapshotSchedule", text v.snapshot_schedule) ∷ [])

  unfoldable pub render_block_storage : ProvisionParams F → Spec F
  render_block_storage p =
      let bs = p.block_store in
      entry "enabled" (flag true)
      ∷ ("volumes", objects (map (render_volume p.primary_region) bs.volumes))
      ∷ []

  unfoldable pub render_file_storage : ProvisionParams F → Spec F
  render_file_storage p =
      let fs = p.file_store in
      entry "enabled" (flag true)
        ∷ entry "performanceMode" (text (coalesce fs.performance_mode "general-purpose"))
        ∷ entry "throughputMode" (text (coalesce fs.throughput_mode "bursting"))
        ∷ entry "protocol" (text (coalesce fs.protocol "nfs"))
        ∷ entry "multiAZ" (flag fs.multi_az)
        ∷ entry "encrypted" (flag true)
        ∷ entry "region" (text p.primary_region)
        ∷ written (is_positive fs.size_gib) (entry "sizeGiB" (number fs.size_gib) ∷ [])
      ++ written (fs.throughput_mode == "provisioned")
          (entry "provisionedThroughputMiBs" (number fs.throughput_mibs) ∷ [])
      ++ written p.backup_required
          (("backup", object (("enabled", flag true) ∷ ("window", text backup_window) ∷ [])) ∷ [])
      ++ replication p

  unfoldable pub render_cache : ProvisionParams F → Spec F
  render_cache p =
      let c = p.cache in
      entry "enabled" (flag true)
        ∷ entry "engine" (text c.engine)
        ∷ entry "tier" (text c.tier)
        ∷ entry "nodeType" (text (coalesce c.node_type (cache_node_type p.workload_profile)))
        ∷ entry "version" (text (cache_engine_version c.engine c.version))
        ∷ entry "replicaCount" (number c.replica_count)
        ∷ entry "region" (text p.primary_region)
        ∷ entry "encrypted" (flag true)
        ∷ entry "transitEncryption" (flag true)
        ∷ entry "authEnabled" (flag true)
        ∷ written (c.tier == "clustered") (
            (
              "clusterMode",
              object (
                  ("enabled", flag true)
                  ∷ ("shardCount", number (cache_shard_count p.workload_profile))
                  ∷ []),
            )
            ∷ [])
      ++ written (is_positive c.snapshot_retention_days) (
          (
            "snapshot",
            object (
                ("enabled", flag true)
                ∷ ("retentionDays", number c.snapshot_retention_days)
                ∷ ("window", text backup_window)
                ∷ []),
          )
          ∷ [])
      ++ entry "maintenanceWindow" (text (maintenance_window p.environment)) ∷ []
