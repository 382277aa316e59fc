-- ===== src/Jobs/Finalise.antt =====
-- `finaliseSuccess`, `finaliseFailure`, `finaliseTerminal` and `computeNextRunAt` of
-- internal/runner/service.go. Each statement is one step, in no transaction: `Meanwhile` is what the others
-- do between two of them. `Faults` says which of the calls on the pool fail; these have no effect.
pub mod Fence
pub mod Row
pub mod Projection
pub mod Retries
use release_engine.Prelude.{
  ℕ, String, ◌+◌, Bool, true, false, ◌&&◌, Option, none, some, List, [], ◌∷◌, ◌++◌, ◌==◌, leb,
  if◌then◌else◌, Dict, lookup, insert, trim_space, Result, ok, err,
}
use release_engine.Jobs.Table.{
  JobState, queued, running, succeeded, jobs_exhausted, is_running, Job, OutboxRow, Db, seconds,
  backoff_seconds, upsert_read, fenced_update,
}

pub record Faults : Type 0 where
  pub acquire : Bool
  pub select : Bool
  pub update : Bool
  pub project : Bool
  pub emit : Bool

pub data FinaliseError : Type 0 where
  no_connection statement_failed fenced_conflict bad_schedule no_next_run : FinaliseError

-- What every other process does to the tables between the SELECT and the UPDATE, before the
-- projection and before the outbox insert, and the database's now() at the UPDATE and at the outbox insert.
pub record Meanwhile : Type 0 where
  pub before_update : Db → Db
  pub written_at : ℕ
  pub before_project : Db → Db
  pub before_emit : Db → Db
  pub emitted_at : ℕ

-- `cronexpr.Parse`, and `Next` of what it returns, whose zero time is `none`.
abbrev pub Cron : Type 0
Cron = String → Option (ℕ → Option ℕ)

-- `computeNextRunAt`: `ok none` is a job that does not run again.
unfoldable pub compute_next_run_at : Cron → Option String → ℕ → Result FinaliseError (Option ℕ)
compute_next_run_at cron none base = ok none
compute_next_run_at cron (some schedule) base =
    if trim_space schedule == "" then ok none else elim (cron schedule) [
      | none ↦ err bad_schedule
      | some next ↦ elim (next base) [ none ↦ err no_next_run | some t ↦ ok (some t) ]
    ]

-- The SET clauses.
unfoldable pub requeue : ℕ → ℕ → Job → Job
requeue now next j = record j {
  state = queued;
  owner_id = none;
  lease_expires_at = none;
  next_run_at = some next;
  last_error_code = none;
  last_error_message = none;
  finished_at = none;
  updated_at = now;
}

unfoldable pub succeed : ℕ → Job → Job
succeed now j = record j {
  state = succeeded;
  owner_id = none;
  lease_expires_at = none;
  next_run_at = none;
  last_error_code = none;
  last_error_message = none;
  finished_at = some now;
  updated_at = now;
}

unfoldable pub exhaust : ℕ → String → String → Job → Job
exhaust now code msg j = record j {
  state = jobs_exhausted;
  owner_id = none;
  lease_expires_at = none;
  next_run_at = none;
  last_error_code = some code;
  last_error_message = some msg;
  updated_at = now;
  finished_at = some now;
}

-- `INSERT INTO jobs_read … SELECT … FROM jobs WHERE id = $1`, whose error is dropped.
unfoldable pub sync_read : Faults → String → Db → Db
sync_read faults id db = if faults.project then db else elim (lookup id db.jobs) [
  | none ↦ db
  | some j ↦ record db { jobs_read = upsert_read j db.jobs_read }
]

abbrev pub succeeded_event : ℕ → Job → OutboxRow
succeeded_event now j = record {
  tenant_id = j.tenant_id;
  job_id = j.id;
  kind = "event";
  payload_type = "job.succeeded";
  next_run_at = now;
}

-- `INSERT INTO outbox … SELECT … FROM jobs WHERE id = $1`, whose error is dropped.
unfoldable pub emit_succeeded : Faults → ℕ → String → Db → Db
emit_succeeded faults now id db = if faults.emit then db else elim (lookup id db.jobs) [
  | none ↦ db
  | some j ↦ record db { outbox = db.outbox ++ succeeded_event now j ∷ [] }
]

-- `finaliseFailure`. PostgreSQL refuses its UPDATE, whatever the row: a CASE of two quoted literals is of
-- type text, which is not assigned to a column of the enumeration `job_state`.
unfoldable pub finalise_failure :
    Faults → (id run_id code msg : String) → Db → Db × Result FinaliseError (Unit {0})
finalise_failure faults id run_id code msg db =
    if faults.acquire then (db, err no_connection) else (db, err statement_failed)

unfoldable pub finalise_terminal :
    Faults → Meanwhile → (id run_id code msg : String) → Db → Db × Result FinaliseError (Unit {0})
finalise_terminal faults between id run_id code msg db =
    if faults.acquire
    then (db, err no_connection)
    else if faults.update
    then (db, err statement_failed)
    else elim (fenced_update id run_id (exhaust between.written_at code msg) db.jobs) [
      | none ↦ (db, err fenced_conflict)
      | some jobs ↦
          (sync_read faults id (between.before_project (record db { jobs = jobs })), ok tt)
    ]

-- The update of `finaliseSuccess`, by whether the job runs again.
abbrev pub success_set : ℕ → Option ℕ → Job → Job
success_set now none = succeed now
success_set now (some next) = requeue now next

-- The schedule that the SELECT under the fence reads.
unfoldable pub fenced_schedule : String → String → Dict Job → Option (Option String)
fenced_schedule id run_id jobs = elim (lookup id jobs) [
  | none ↦ none
  | some j ↦ if j.run_id == run_id && is_running j.state then some j.schedule else none
]

-- From the UPDATE of `finaliseSuccess` on.
unfoldable pub commit_success :
    Faults → Meanwhile → (id run_id : String) → Option ℕ → Db → Db × Result FinaliseError (Unit {0})
commit_success faults between id run_id next db =
    let reached = between.before_update db in
    if faults.update
    then (reached, err statement_failed)
    else elim (fenced_update id run_id (success_set between.written_at next) reached.jobs) [
      | none ↦ (reached, err fenced_conflict)
      | some jobs ↦
          let synced =
            sync_read faults id (between.before_project (record reached { jobs = jobs })) in
          (emit_succeeded faults between.emitted_at id (between.before_emit synced), ok tt)
    ]

-- `finaliseSuccess`; `now` is the instant that its SELECT reads.
unfoldable pub finalise_success :
    Cron → Faults → ℕ → Meanwhile → (id run_id : String) → Db → Db × Result FinaliseError (Unit {0})
unfolding commit_success
finalise_success cron faults now between id run_id db =
    if faults.acquire
    then (db, err no_connection)
    else if faults.select
    then (db, err statement_failed)
    else elim (fenced_schedule id run_id db.jobs) [
      | none ↦ (db, err fenced_conflict)
      | some schedule ↦ elim (compute_next_run_at cron schedule now) [
        | err e ↦ (db, err e)
        | ok next ↦ commit_success faults between id run_id next db
      ]
    ]
