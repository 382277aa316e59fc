-- ===== src/Jobs/Lease.antt =====
-- internal/scheduler/lease_manager.go. `run_id` is the uuid that the call draws, and `ttl` its whole
-- seconds. Each of the two pool calls may fail.
pub mod Laws
use release_engine.Prelude.{
  ℕ, String, ◌+◌, Bool, true, false, not, ◌&&◌, ◌||◌, Option, none, some, [], ◌∷◌, ◌==◌, ltb,
  if◌then◌else◌, Dict, lookup, insert, Result, ok, err,
}
use release_engine.Jobs.Table.{Job, JobState, running, Db, seconds}

pub data LeaseError : Type 0 where
  pool_failed lease_acquire_conflict err_fenced_conflict : LeaseError

-- `lease_expires_at IS NULL OR lease_expires_at < NOW()`
abbrev pub lease_free : ℕ → Option ℕ → Bool
lease_free now none = true
lease_free now (some t) = ltb t now

unfoldable pub leased : ℕ → (run_id owner_id : String) → (ttl : ℕ) → Job → Job
leased now run_id owner_id ttl j = record j {
  run_id = run_id;
  owner_id = some owner_id;
  lease_expires_at = some (now + seconds ttl);
  state = running;
  updated_at = now;
}

-- `AcquireJobLease`; `fails` is an error of `Acquire` or `Exec`.
unfoldable pub acquire_job_lease :
    (fails : Bool)
    → ℕ
    → (job_id owner_id run_id : String) → (ttl : ℕ) → Db
    → Db × Result LeaseError String
acquire_job_lease fails now job_id owner_id run_id ttl db =
    if fails then (db, err pool_failed) else elim (lookup job_id db.jobs) [
      | none ↦ (db, err lease_acquire_conflict)
      | some j ↦
          if lease_free now j.lease_expires_at
          then (
            record db { jobs = insert job_id (leased now run_id owner_id ttl j) db.jobs },
            ok run_id,
          )
          else (db, err lease_acquire_conflict)
    ]

unfoldable pub fence_set : ℕ → JobState → Job → Job
fence_set now state j = record j {
  state = state;
  lease_expires_at = none;
  owner_id = none;
  updated_at = now;
}

-- `FinaliseWithFence`, which returns the number of rows.
unfoldable pub finalise_with_fence :
    (fails : Bool) → ℕ → (job_id run_id : String) → JobState → Db → Db × Result LeaseError ℕ
finalise_with_fence fails now job_id run_id state db =
    if fails then (db, err pool_failed) else elim (lookup job_id db.jobs) [
      | none ↦ (db, err err_fenced_conflict)
      | some j ↦
          if j.run_id == run_id
          then (record db { jobs = insert job_id (fence_set now state j) db.jobs }, ok 1)
          else (db, err err_fenced_conflict)
    ]
