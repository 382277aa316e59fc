-- ===== src/Jobs/History.antt =====
-- The tables under any interleaving of the statements that the scheduler, the lease manager and the
-- runners send. Each statement is one event, those of a finalisation too; reading ones, failing ones and
-- the UPDATE of `finaliseFailure`, which PostgreSQL refuses, change nothing and are left out. `next` is what
-- `computeNextRunAt` made of an earlier SELECT: it may be any value.
pub mod Kept
pub mod Invariant
pub mod Budget
use release_engine.Prelude.{ℕ, String, Bool, Option, none, some, List, [], ◌∷◌}
use release_engine.Jobs.Table.{Job, JobState, Db, fenced_update}
use release_engine.Jobs.Claim.{claim}
use release_engine.Jobs.Lease.{acquire_job_lease, finalise_with_fence}
use release_engine.Jobs.Finalise.{Faults, success_set, exhaust, sync_read, emit_succeeded}

pub data Event : Type 0 where
  claims : (now : ℕ) (locked : String → Bool) (fresh : String → String) → Event
  leases : (fails : Bool) (now : ℕ) (job_id owner_id run_id : String) (ttl : ℕ) → Event
  fences : (fails : Bool) (now : ℕ) (job_id run_id : String) (state : JobState) → Event
  succeeds : (now : ℕ) (id run_id : String) (next : Option ℕ) → Event
  terminates : (now : ℕ) (id run_id code msg : String) → Event
  projects : (faults : Faults) (id : String) → Event
  emits : (faults : Faults) (now : ℕ) (id : String) → Event

-- An UPDATE under the fence.
unfoldable pub write_fenced : String → String → (Job → Job) → Db → Db
write_fenced id run_id set db = elim (fenced_update id run_id set db.jobs) [
  | none ↦ db
  | some jobs ↦ record db { jobs = jobs }
]

unfoldable pub step : Db → Event → Db
step db (claims now locked fresh) = (claim now locked fresh db).0
step db (leases bad now job_id owner_id run_id ttl) =
    (acquire_job_lease bad now job_id owner_id run_id ttl db).0
step db (fences bad now job_id run_id state) =
    (finalise_with_fence bad now job_id run_id state db).0
step db (succeeds now id run_id next) = write_fenced id run_id (success_set now next) db
step db (terminates now id run_id code msg) = write_fenced id run_id (exhaust now code msg) db
step db (projects faults id) = sync_read faults id db
step db (emits faults now id) = emit_succeeded faults now id db

unfoldable pub run : Db → List Event → Db
run db [] = db
run db (e ∷ es) = run (step db e) es
