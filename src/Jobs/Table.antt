-- ===== src/Jobs/Table.antt =====
-- The tables of internal/db/schema.go that the scheduler and the runner write. Instants are
-- nanoseconds, `none` is NULL, and the tables that are read by primary key are dictionaries.
use release_engine.Prelude.{
  ℕ, String, ◌-◌, ◌*◌, ◌^◌, Bool, true, false, ◌&&◌, Option, none, some, List, ◌==◌, leb,
  if◌then◌else◌, Dict, lookup, insert,
}

-- `job_state`
pub data JobState : Type 0 where
  queued running succeeded failed jobs_exhausted canceled : JobState

abbrev pub is_queued : JobState → Bool
is_queued queued = true
is_queued _ = false

abbrev pub is_running : JobState → Bool
is_running running = true
is_running _ = false

-- `step_status`
pub data StepStatus : Type 0 where
  ok_status error_status skipped waiting_approval : StepStatus

abbrev pub is_parked : StepStatus → Bool
is_parked waiting_approval = true
is_parked _ = false

-- The two members of the `backoff_policy` JSON that are read.
pub record BackoffPolicy : Type 0 where
  pub base_seconds : Option ℕ
  pub max_seconds : Option ℕ

-- A row of `jobs`, less the cancellation columns.
pub record Job : Type 0 where
  pub id : String
  pub tenant_id : String
  pub path_key : String
  pub idempotency_key : String
  pub params_json : String
  pub schedule : Option String
  pub state : JobState
  pub attempt : ℕ
  pub max_attempts : ℕ
  pub backoff_policy : BackoffPolicy
  pub owner_id : Option String
  pub run_id : String
  pub lease_expires_at : Option ℕ
  pub next_run_at : Option ℕ
  pub accepted_at : ℕ
  pub last_error_code : Option String
  pub last_error_message : Option String
  pub created_by : Option String
  pub created_at : ℕ
  pub started_at : Option ℕ
  pub finished_at : Option ℕ
  pub updated_at : ℕ

-- A row of `jobs_read`.
pub record JobRead : Type 0 where
  pub id : String
  pub tenant_id : String
  pub path_key : String
  pub state : JobState
  pub attempt : ℕ
  pub max_attempts : ℕ
  pub schedule : Option String
  pub owner_id : Option String
  pub run_id : String
  pub lease_expires_at : Option ℕ
  pub next_run_at : Option ℕ
  pub accepted_at : ℕ
  pub last_error_code : Option String
  pub last_error_message : Option String
  pub started_at : Option ℕ
  pub finished_at : Option ℕ
  pub created_at : ℕ
  pub updated_at : ℕ

-- The columns of `outbox` that the runner writes; the payload is its `type` and the job's id.
pub record OutboxRow : Type 0 where
  pub tenant_id : String
  pub job_id : String
  pub kind : String
  pub payload_type : String
  pub next_run_at : ℕ

-- The columns of `steps` that the scheduler and the step API use.
pub record StepRow : Type 0 where
  pub id : ℕ
  pub job_id : String
  pub run_id : String
  pub attempt : ℕ
  pub step_key : String
  pub status : StepStatus
  pub error_code : Option String
  pub error_message : Option String

pub record Db : Type 0 where
  pub jobs : Dict Job
  pub jobs_read : Dict JobRead
  pub outbox : List OutboxRow
  pub steps : List StepRow

abbrev pub seconds : ℕ → ℕ
seconds n = n * 1_000_000_000

abbrev pub or_default : ℕ → Option ℕ → ℕ
or_default d none = d
or_default d (some n) = n

-- LEAST
abbrev pub least : ℕ → ℕ → ℕ
least a b = if leb a b then a else b

-- The SQL function `backoff_interval`, in seconds; GREATEST(attempt - 1, 0) is `-` on ℕ.
unfoldable pub backoff_seconds : ℕ → BackoffPolicy → ℕ
backoff_seconds attempt policy =
    least (or_default 2 policy.base_seconds * 2 ^ (attempt - 1)) (or_default 300 policy.max_seconds)

-- The columns that `INSERT INTO jobs_read … SELECT … FROM jobs` copies.
unfoldable pub project : Job → JobRead
project j = record {
  id = j.id;
  tenant_id = j.tenant_id;
  path_key = j.path_key;
  state = j.state;
  attempt = j.attempt;
  max_attempts = j.max_attempts;
  schedule = j.schedule;
  owner_id = j.owner_id;
  run_id = j.run_id;
  lease_expires_at = j.lease_expires_at;
  next_run_at = j.next_run_at;
  accepted_at = j.accepted_at;
  last_error_code = j.last_error_code;
  last_error_message = j.last_error_message;
  started_at = j.started_at;
  finished_at = j.finished_at;
  created_at = j.created_at;
  updated_at = j.updated_at;
}

-- ON CONFLICT (id) DO UPDATE sets all but the tenant and the path.
unfoldable pub merged_read : Job → Option JobRead → JobRead
unfolding project
merged_read j none = project j
merged_read j (some old) =
    let new = project j in record new { tenant_id = old.tenant_id; path_key = old.path_key }

unfoldable pub upsert_read : Job → Dict JobRead → Dict JobRead
upsert_read j m = insert j.id (merged_read j (lookup j.id m)) m

-- `WHERE id = $1 AND run_id = $2 AND state = 'running'`: `none` where no row is affected.
unfoldable pub fenced_update : String → String → (Job → Job) → Dict Job → Option (Dict Job)
fenced_update id run_id set jobs = elim (lookup id jobs) [
  | none ↦ none
  | some j ↦
      if j.run_id == run_id && is_running j.state then some (insert id (set j) jobs) else none
]
