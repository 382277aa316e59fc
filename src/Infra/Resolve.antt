-- ===== src/Infra/Resolve.antt =====
-- The functions of internal/module/infra/template/resolve that the storage fragments call. `halves n` is the
-- float64 n / 2.
use release_engine.Prelude.{zero, ℕ, String, Bool, true, false, ◌||◌, ◌==◌, suc, if◌then◌else◌}
use release_engine.Prelude.Int.{ℤ, pos}

abbrev pub is_zero : ℤ → Bool
is_zero (pos zero) = true
is_zero _ = false

abbrev pub is_positive : ℤ → Bool
is_positive (pos (suc n)) = true
is_positive _ = false

abbrev pub is_below_two : ℤ → Bool
is_below_two (pos (suc (suc n))) = false
is_below_two _ = true

-- `Coalesce` of a text and a default.
abbrev pub coalesce : String → String → String
coalesce value fallback = if value == "" then fallback else value

-- `DiskTypeToCloud`
unfoldable pub disk_type_to_cloud : String → String
disk_type_to_cloud t = if t == "provisioned" then "io2" else "gp3"

-- `DBInstanceClass`, which does not read the engine.
unfoldable pub db_instance_class : String → String
db_instance_class tier = if tier == "ha" then "db.r6g.xlarge" else "db.r6g.large"

-- `ReadReplicas`
unfoldable pub read_replicas : String → ℤ
read_replicas availability =
    if availability == "critical" then pos 2 else if availability == "high" then pos 1 else pos 0

-- `DefaultBackupRetention`
unfoldable pub default_backup_retention : String → ℤ
default_backup_retention classification =
    if classification == "restricted"
    then pos 35
    else if classification == "confidential"
    then pos 14
    else pos 7

-- `ServerlessMinACU` and `ServerlessMaxACU`, in halves.
unfoldable pub serverless_min_acu : String → ℕ
serverless_min_acu profile =
    if profile == "medium"
    then 4
    else if profile == "large"
    then 16
    else if profile == "xlarge"
    then 32
    else 1

unfoldable pub serverless_max_acu : String → ℕ
serverless_max_acu profile =
    if profile == "medium"
    then 32
    else if profile == "large"
    then 128
    else if profile == "xlarge"
    then 256
    else 8

-- `CacheNodeType`, which does not read the engine.
unfoldable pub cache_node_type : String → String
cache_node_type profile =
    if profile == "medium"
    then "cache.r7g.large"
    else if profile == "large"
    then "cache.r7g.xlarge"
    else if profile == "xlarge"
    then "cache.r7g.2xlarge"
    else "cache.r7g.medium"

-- `CacheEngineVersion`
unfoldable pub cache_engine_version : (engine requested : String) → String
cache_engine_version engine requested =
    if requested == ""
    then (if engine == "redis" || engine == "valkey"
        then "7.2"
        else if engine == "memcached"
        then "1.6"
        else "latest")
    else requested

-- `CacheShardCount`
unfoldable pub cache_shard_count : String → ℤ
cache_shard_count profile =
    if profile == "medium"
    then pos 3
    else if profile == "large"
    then pos 6
    else if profile == "xlarge"
    then pos 9
    else pos 2

-- `MaintenanceWindow`, which does not read the region.
unfoldable pub maintenance_window : String → String
maintenance_window environment =
    if environment == "production" then "sun:03:00-sun:04:00" else "sat:03:00-sat:04:00"

-- `BackupWindow`
abbrev pub backup_window : String
backup_window = "02:00-03:00"

-- `DBReplicationType`
unfoldable pub db_replication_type : String → String
db_replication_type engine =
    if engine == "aurora-postgres" || engine == "aurora-mysql"
    then "aurora-global-database"
    else "cross-region-read-replica"
