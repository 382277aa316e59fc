-- ===== src/Jobs/Claim.antt =====
-- `claimAndDispatch` of internal/scheduler/service.go: the claiming statement, one snapshot at `now`.
-- `locked` says which rows other transactions hold (SKIP LOCKED), `fresh` what gen_random_uuid()
-- returns for a row. The order of rows that compare equal is open: here it is that of the table.
pub mod Order
pub mod Laws
use release_engine.Prelude.{
  ℕ, String, ◌+◌, Bool, true, false, not, ◌&&◌, ◌||◌, Option, none, some, List, [], ◌∷◌, map, ◌==◌,
  ltb, leb, eqb, any, if◌then◌else◌, Dict, take, sort, lookup, is_some,
}
use release_engine.Jobs.Table.{
  Job, JobState, queued, running, is_queued, is_running, StepRow, is_parked, Db, seconds,
}

-- `column <= now()`, which NULL does not satisfy.
abbrev pub due : ℕ → Option ℕ → Bool
due now none = false
due now (some t) = leb t now

-- NOT EXISTS (… status = 'waiting_approval').
abbrev pub is_waiting_on_approval : List StepRow → Job → Bool
is_waiting_on_approval steps j = any (λ r. r.job_id == j.id && is_parked r.status) steps

-- The WHERE clause.
unfoldable pub is_runnable : ℕ → List StepRow → Job → Bool
is_runnable now steps j =
    (is_queued j.state && due now j.next_run_at || is_running j.state && due now j.lease_expires_at)
    && not (is_waiting_on_approval steps j)

-- CASE WHEN state = 'running' THEN 0 ELSE 1 END
abbrev pub rank : Job → ℕ
rank j = if is_running j.state then 0 else 1

-- NULLS FIRST, ascending: -1, 0 and 1 of a comparison are `lt`, equal and greater.
abbrev pub nulls_first : Option ℕ → ℕ
nulls_first none = 0
nulls_first (some t) = t + 1

-- ORDER BY rank, next_run_at NULLS FIRST, lease_expires_at NULLS FIRST.
unfoldable pub claims_before : Job → Job → Bool
claims_before a b =
    if ltb (rank a) (rank b)
    then true
    else if ltb (rank b) (rank a)
    then false
    else if ltb (nulls_first a.next_run_at) (nulls_first b.next_run_at)
    then true
    else if ltb (nulls_first b.next_run_at) (nulls_first a.next_run_at)
    then false
    else leb (nulls_first a.lease_expires_at) (nulls_first b.lease_expires_at)

unfoldable pub runnable_jobs : ℕ → (String → Bool) → List StepRow → Dict Job → List Job
runnable_jobs now locked steps [] = []
runnable_jobs now locked steps ((id, j) ∷ m) =
    let rest = runnable_jobs now locked steps m in
    if is_runnable now steps j && not (locked j.id) then j ∷ rest else rest

abbrev pub claim_limit : ℕ
claim_limit = 10

-- The rows of `picked`.
unfoldable pub picked : ℕ → (String → Bool) → Db → List Job
picked now locked db =
    take claim_limit (sort claims_before (runnable_jobs now locked db.steps db.jobs))

abbrev pub scheduler_owner : String
scheduler_owner = "scheduler-1"

abbrev pub lease_seconds : ℕ
lease_seconds = 60

-- COALESCE
abbrev pub coalesce : Option ℕ → ℕ → ℕ
coalesce none d = d
coalesce (some t) d = t

-- The SET clause.
unfoldable pub claimed : ℕ → (String → String) → Job → Job
claimed now fresh j = record j {
  state = running;
  owner_id = some scheduler_owner;
  run_id = fresh j.id;
  lease_expires_at = some (now + seconds lease_seconds);
  attempt = if is_queued j.state then j.attempt + 1 else j.attempt;
  started_at = some (coalesce j.started_at now);
  updated_at = now;
}

unfoldable pub is_picked : List Job → String → Bool
is_picked rows id = any (λ j. j.id == id) rows

-- UPDATE jobs … FROM picked p WHERE j.id = p.id.
unfoldable pub claim_rows : ℕ → (String → String) → List Job → Dict Job → Dict Job
claim_rows now fresh rows [] = []
claim_rows now fresh rows ((id, j) ∷ m) =
    (id, if is_picked rows j.id then claimed now fresh j else j) ∷ claim_rows now fresh rows m

-- The statement: the new tables, and the (id, run_id) of each claimed row.
unfoldable pub claim : ℕ → (String → Bool) → (String → String) → Db → Db × List (String × String)
claim now locked fresh db =
    let rows = picked now locked db in
    (record db { jobs = claim_rows now fresh rows db.jobs }, map (λ j. (j.id, fresh j.id)) rows)
