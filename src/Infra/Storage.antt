-- ===== src/Infra/Storage.antt =====
-- The fragments of internal/module/infra/template/fragments that hold data.
pub mod Validate
pub mod Render
pub mod Parts
pub mod Database
pub mod Laws
use release_engine.Prelude.{
  ℕ, String, Bool, true, false, not, ◌&&◌, ◌||◌, Option, none, some, List, [], ◌∷◌, ◌++◌, ◌==◌, map,
  if◌then◌else◌, Dict, Result, ok, err, any,
}
use release_engine.Prelude.Int.{ℤ, pos, negsuc}
use release_engine.Infra.Capabilities.{
  DatabaseParams, ObjectStoreParams, BlockVolume, BlockStoreParams, FileStoreParams, CacheParams,
}
use release_engine.Infra.Params.{ProvisionParams}
use release_engine.Infra.Resolve.{
  is_below_two, is_zero, is_positive, coalesce, disk_type_to_cloud, db_instance_class,
  read_replicas, default_backup_retention, serverless_min_acu, serverless_max_acu, cache_node_type,
  cache_engine_version, cache_shard_count, maintenance_window, backup_window, db_replication_type,
}
use release_engine.Infra.Engine.{Fragment}
use release_engine.Infra.Spec.{
  Scalar, SpecValue, Spec, text, number, real, flag, plain, object, objects, written, first_message,
  entry, has_recovery, replication,
}
use release_engine.Infra.Storage.Validate.{
  validate_database, validate_object_storage, validate_block_storage, validate_file_storage,
  validate_cache,
}
use release_engine.Infra.Storage.Render.{
  render_database, render_object_storage, render_block_storage, render_file_storage, render_cache,
}

module _ {F : Type 0} where
  -- `DatabaseFragment`
  abbrev pub database_fragment : (halves : ℕ → F) → Fragment F (Spec F)
  database_fragment halves = record {
    name = "database";
    applicable = λ p. p.database.enabled;
    validate = validate_database;
    render = λ p. ok (("database", render_database halves p) ∷ []);
  }

  -- `ObjectStorageFragment`
  abbrev pub object_storage_fragment : Fragment F (Spec F)
  object_storage_fragment = record {
    name = "object-storage";
    applicable = λ p. p.object_store.enabled;
    validate = validate_object_storage;
    render = λ p. ok (("objectStorage", render_object_storage p) ∷ []);
  }

  -- `BlockStorageFragment`
  abbrev pub block_storage_fragment : Fragment F (Spec F)
  block_storage_fragment = record {
    name = "block-storage";
    applicable = λ p. p.block_store.enabled;
    validate = validate_block_storage;
    render = λ p. ok (("blockStorage", render_block_storage p) ∷ []);
  }

  -- `FileStorageFragment`
  abbrev pub file_storage_fragment : Fragment F (Spec F)
  file_storage_fragment = record {
    name = "file-storage";
    applicable = λ p. p.file_store.enabled;
    validate = validate_file_storage;
    render = λ p. ok (("fileStorage", render_file_storage p) ∷ []);
  }

  -- `CacheFragment`
  abbrev pub cache_fragment : Fragment F (Spec F)
  cache_fragment = record {
    name = "cache";
    applicable = λ p. p.cache.enabled;
    validate = validate_cache;
    render = λ p. ok (("cache", render_cache p) ∷ []);
  }

  -- The five, as the engine is given them among others.
  abbrev pub storage_fragments : (halves : ℕ → F) → List (Fragment F (Spec F))
  storage_fragments halves =
      database_fragment halves
      ∷ object_storage_fragment
      ∷ block_storage_fragment
      ∷ file_storage_fragment
      ∷ cache_fragment
      ∷ []
