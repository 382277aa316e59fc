-- ===== src/Intake/Store.antt =====
-- The statements of `createJobWithDB` and `fetchExistingIdempotencyRecord`
-- (internal/transport/http/job_handler.go). They run one by one, in no transaction. A fault of the pool
-- makes a call fail without effect; `job_id` and `run_id` are the uuids drawn.
pub mod Keys
pub mod Rows
pub mod History
pub mod Lost
pub mod Refines
use release_engine.Prelude.{
  ◌||◌, ℕ, String, ◌+◌, ◌*◌, Bool, true, false, ◌&&◌, Option, none, some, List, [], ◌∷◌, ◌++◌, ◌==◌,
  any, if◌then◌else◌, Dict, lookup, insert, is_some, Result, ok, err,
}
use release_engine.Jobs.Table.{Job, queued, Db, project}
use release_engine.Intake.Request.{Request, Envelope, Record, nullable_schedule}

-- A row of `idempotency_keys`, less its id and all instants but the last; `response` is what
-- `response_body_json` decodes to. The CHECK on the key's format is the one that the handler makes.
pub record KeyRow : Type 0 where
  pub tenant_id : String
  pub path_key : String
  pub idempotency_key : String
  pub fingerprint : String
  pub status_code : ℕ
  pub response : Envelope
  pub job_id : String
  pub expires_at : ℕ

-- The tables that the intake writes.
pub record Tables : Type 0 where
  pub db : Db
  pub keys : List KeyRow

pub record IntakeFaults : Type 0 where
  pub acquire : Bool
  pub insert_key : Bool
  pub fetch : Bool
  pub insert_job : Bool
  pub insert_read : Bool

abbrev pub no_intake_faults : IntakeFaults
no_intake_faults = record {
  acquire = false;
  insert_key = false;
  fetch = false;
  insert_job = false;
  insert_read = false;
}

pub data IntakeError : Type 0 where
  no_connection statement_failed unique_violation : IntakeError

-- `(createJobRecord, replayed, conflict)` without an error.
pub data Intake : Type 0 where
  created replayed conflicted : Record → Intake

abbrev pub is_key : String → String → String → KeyRow → Bool
is_key tenant path key r = (r.tenant_id == tenant && r.path_key == path) && r.idempotency_key == key

-- The row under UNIQUE (tenant_id, path_key, idempotency_key).
unfoldable pub find_key : String → String → String → List KeyRow → Option KeyRow
find_key tenant path key [] = none
find_key tenant path key (r ∷ rs) =
    if is_key tenant path key r then some r else find_key tenant path key rs

-- The unique index jobs_tenant_idem_uidx on (tenant_id, idempotency_key).
unfoldable pub has_tenant_key : String → String → Dict Job → Bool
has_tenant_key tenant key [] = false
has_tenant_key tenant key ((id, j) ∷ m) =
    let rest = has_tenant_key tenant key m in
    if j.tenant_id == tenant && j.idempotency_key == key then true else rest

-- What `fetchExistingIdempotencyRecord` makes of the row.
unfoldable pub existing : String → KeyRow → Intake
existing fingerprint r =
    let rec : Record = record {
      fingerprint = r.fingerprint;
      status_code = r.status_code;
      envelope = r.response;
    } in
    if r.fingerprint == fingerprint then replayed rec else conflicted rec

abbrev pub ttl_48h : ℕ
ttl_48h = 172_800_000_000_000

module _ {P : Type 0} (encode : P → String) where
  abbrev pub envelope_of : ℕ → String → Request P → ℕ → Envelope
  envelope_of now job_id req next = record {
    job_id = job_id;
    tenant_id = req.tenant_id;
    path_key = req.path_key;
    max_attempts = req.max_attempts;
    next_run_at = next;
    accepted_at = now;
  }

  -- 202 is http.StatusAccepted.
  abbrev pub key_row : ℕ → String → Request P → String → ℕ → KeyRow
  key_row now job_id req fingerprint next = record {
    tenant_id = req.tenant_id;
    path_key = req.path_key;
    idempotency_key = req.idempotency_key;
    fingerprint = fingerprint;
    status_code = 202;
    response = envelope_of now job_id req next;
    job_id = job_id;
    expires_at = now + ttl_48h;
  }

  -- The row of `INSERT INTO jobs`, with the columns' defaults.
  unfoldable pub new_job : ℕ → String → String → Request P → ℕ → Job
  new_job now job_id run_id req next = record {
    id = job_id;
    tenant_id = req.tenant_id;
    path_key = req.path_key;
    idempotency_key = req.idempotency_key;
    params_json = encode req.params;
    schedule = nullable_schedule req.schedule;
    state = queued;
    attempt = 0;
    max_attempts = req.max_attempts;
    backoff_policy = record { base_seconds = none; max_seconds = none };
    owner_id = none;
    run_id = run_id;
    lease_expires_at = none;
    next_run_at = some next;
    accepted_at = now;
    last_error_code = none;
    last_error_message = none;
    created_by = none;
    created_at = now;
    started_at = none;
    finished_at = none;
    updated_at = now;
  }

  abbrev pub new_record : ℕ → String → Request P → String → ℕ → Record
  new_record now job_id req fingerprint next = record {
    fingerprint = fingerprint;
    status_code = 202;
    envelope = envelope_of now job_id req next;
  }

  -- `INSERT INTO jobs` and `INSERT INTO jobs_read`.
  unfoldable pub insert_job :
      IntakeFaults
      → ℕ
      → (job_id run_id : String) → Request P
      → (fingerprint : String) → (next : ℕ) → Tables
      → Tables × Result IntakeError Intake
  unfolding project
  insert_job faults now job_id run_id req fingerprint next st =
      let j = new_job now job_id run_id req next in
      let db = st.db in
      let stored : Db = record db { jobs = insert job_id j db.jobs } in
      if faults.insert_job
      then (st, err statement_failed)
      else if is_some (lookup job_id db.jobs)
          || has_tenant_key req.tenant_id req.idempotency_key db.jobs
      then (st, err unique_violation)
      else if faults.insert_read
      then (record st { db = stored }, err statement_failed)
      else if is_some (lookup job_id db.jobs_read)
      then (record st { db = stored }, err unique_violation)
      else (
        record st { db = record stored { jobs_read = insert job_id (project j) db.jobs_read } },
        ok (created (new_record now job_id req fingerprint next)),
      )

  -- `createJobWithDB`
  unfoldable pub create_job_with_db :
      IntakeFaults
      → ℕ
      → (job_id run_id : String) → Request P
      → (fingerprint : String) → (next : ℕ) → Tables
      → Tables × Result IntakeError Intake
  unfolding insert_job
  create_job_with_db faults now job_id run_id req fingerprint next st =
      if faults.acquire
      then (st, err no_connection)
      else if faults.insert_key
      then (st, err statement_failed)
      else elim (find_key req.tenant_id req.path_key req.idempotency_key st.keys) [
        | some r ↦
            if faults.fetch then (st, err statement_failed) else (st, ok (existing fingerprint r))
        | none ↦
            insert_job faults now job_id run_id req fingerprint next
              (record st { keys = st.keys ++ key_row now job_id req fingerprint next ∷ [] })
      ]
