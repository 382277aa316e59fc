-- ===== src/Jobs/Tests.antt =====
-- The tables at concrete statements: two jobs, one due at 5 and one at 15.
use mathlib.Core.List.{Memᴰ}
use release_engine.Prelude.{
  trim_space, ◌==◌, ap, ℕ, String, ◌≡◌, ◌≢◌, ◌+◌, ◌<>◌, refl, inl, false, Option, none, some, List,
  [], ◌∷◌, lookup, insert, ok, arith, eq_iff, sort,
}
use release_engine.Jobs.Table.{Job, queued, running, succeeded, canceled, Db, fenced_update}
use release_engine.Jobs.Claim.{
  claim, claimed, picked, runnable_jobs, is_runnable, claims_before, is_picked, claim_rows,
}
use release_engine.Jobs.Claim.Laws.{claim_exclusive}
use release_engine.Jobs.Finalise.{
  Faults, Meanwhile, Cron, finalise_success, compute_next_run_at, fenced_schedule, commit_success,
}
use release_engine.Jobs.Finalise.Fence.{IsRefused}
use release_engine.Jobs.Finalise.Projection.{IsCommitted, finalise_success-IsCommitted}
use release_engine.Jobs.Runner.{Environment, completed, run_job, fenced_job, params_of}
use release_engine.Jobs.Runner.{retryable}
use release_engine.Jobs.Runner.Laws.{run_job_fenced}
use release_engine.Jobs.History.{
  Event, claims, leases, fences, succeeds, terminates, projects, emits, run,
}
use release_engine.Jobs.History.Budget.{AllBudgeted, run-AllBudgeted}
use release_engine.Jobs.History.Invariant.{AllRows, run-AllRows}

abbrev job : String → ℕ → Job
job id at = record {
  id = id;
  tenant_id = "t1";
  path_key = "infra";
  idempotency_key = "k1";
  params_json = "";
  schedule = none;
  state = queued;
  attempt = 0;
  max_attempts = 3;
  backoff_policy = record { base_seconds = none; max_seconds = none };
  owner_id = none;
  run_id = "r0";
  lease_expires_at = none;
  next_run_at = some at;
  accepted_at = 1;
  last_error_code = none;
  last_error_message = none;
  created_by = none;
  created_at = 1;
  started_at = none;
  finished_at = none;
  updated_at = 1;
}

abbrev tables : Db
tables = record {
  jobs = ("j1", job "j1" 5) ∷ ("j2", job "j2" 15) ∷ [];
  jobs_read = [];
  outbox = [];
  steps = [];
}

abbrev fresh : String → String
fresh id = id <> "-r1"

abbrev no_faults : Faults
no_faults = record {
  acquire = false;
  select = false;
  update = false;
  project = false;
  emit = false;
}

-- Every schedule runs an hour later.
abbrev hourly : Cron
hourly s = some (λ t. some (t + 3_600_000_000_000))

abbrev statements : List Event
statements =
    claims 10 (λ id. false) fresh
    ∷ terminates 20 "j1" "j1-r1" "E" "m"
    ∷ leases false 30 "j2" "o" "r2" 60
    ∷ succeeds 40 "j2" "r2" (some 50)
    ∷ projects no_faults "j2"
    ∷ emits no_faults 41 "j2"
    ∷ fences false 45 "j1" "j1-r1" canceled
    ∷ []

run-AllRows_example : AllRows (run tables statements)
run-AllRows_example =
    run-AllRows tables statements (tt, (tt, (tt, (tt, (tt, (tt, (refl, tt)))))))
      (ground arith, (ground arith, tt))

claim_exclusive_example : ◌≢◌ {A = String} "j1" "j2"
unfolding claim picked runnable_jobs is_runnable claims_before sort claim_rows is_picked claimed
claim_exclusive_example =
    claim_exclusive 10 (λ id. false) fresh tables 20 (λ id. false) fresh [] ("j1", "j1-r1")
      ("j2", "j2-r1") (ground arith) (Memᴰ.head refl) (Memᴰ.head refl)

-- The job while its first run holds it, and the tables with that row.
abbrev held : Job
held = record (job "j1" 5) {
  state = running;
  attempt = 1;
  owner_id = some "scheduler-1";
  run_id = "j1-r1";
  lease_expires_at = some 60_000_000_010;
}

abbrev held_tables : Db
held_tables = record tables { jobs = ("j1", held) ∷ [] }

-- The others leave the tables alone, and the runner's clock goes on.
abbrev alone : Meanwhile
alone = record {
  before_update = λ db. db;
  written_at = 21;
  before_project = λ db. db;
  before_emit = λ db. db;
  emitted_at = 22;
}

finalise_success-IsCommitted_example :
    (next : Option ℕ) × (compute_next_run_at hourly none 20 ≡ ok next)
    × IsCommitted alone "j1" held next held_tables
        (finalise_success hourly no_faults 20 alone "j1" "j1-r1" held_tables).0
unfolding finalise_success fenced_schedule compute_next_run_at commit_success fenced_update lookup
    insert
finalise_success-IsCommitted_example =
    finalise_success-IsCommitted no_faults alone "j1" "j1-r1" held_tables held
      (λ db. (refl, refl, refl)) (λ db. (refl, refl, refl)) (λ db. (refl, refl, refl)) hourly 20
      refl refl refl refl (λ old found. cc) tt

abbrev done : Job
done = record (job "j1" 5) {
  state = succeeded;
  attempt = 1;
  next_run_at = none;
  finished_at = some 40;
}

abbrev done_tables : Db
done_tables = record tables { jobs = ("j1", done) ∷ [] }

-- One module, which completes.
abbrev environment : Environment
environment = record {
  Params = String;
  Module = String;
  empty_params = "";
  decode = λ raw. some raw;
  version_of = λ raw. "";
  lookup_module = λ key version. some (key <> (":" <> version));
  execute = λ m params job_id run_id attempt. completed;
  cron = hourly;
}

-- While the module runs, another run takes the job.
abbrev taken_over : Db → Db
taken_over db = record db { jobs = ("j1", record held { run_id = "j1-r2" }) ∷ [] }

run_job_fenced_example :
    IsRefused
      (taken_over held_tables)
      (run_job environment false no_faults 70 alone taken_over "j1" "j1-r1" held_tables)
unfolding fenced_job params_of lookup
run_job_fenced_example =
    run_job_fenced environment no_faults 70 alone "j1" "j1-r1" taken_over held_tables held ""
      "infra:latest" refl refl refl (λ j found. inl (other_run j found))
  where
    other_run : (j : Job) → lookup "j1" (taken_over held_tables).jobs ≡ some j → j.run_id ≢ "j1-r1"
    other_run j found = ground (
      arith,
      eq_iff "j1-r2" "j1-r1",
      ap {B = String} (λ (o : Option Job). elim o [ none ↦ "" | some x ↦ x.run_id ]) found,
    )

-- The same module, whose connector is down.
abbrev failing_environment : Environment
failing_environment = record environment {
  execute = λ m params job_id run_id attempt. retryable "down";
}

-- The second job recurs.
abbrev recurring_tables : Db
recurring_tables = record tables {
  jobs = ("j1", job "j1" 5) ∷ ("j2", record (job "j2" 15) { schedule = some "@hourly" }) ∷ [];
}

run-AllBudgeted_example : AllBudgeted (λ id. id == "j2") (run recurring_tables statements)
unfolding trim_space
run-AllBudgeted_example =
    run-AllBudgeted (λ id. id == "j2") recurring_tables statements
      (tt, (tt, (tt, (refl, (tt, (tt, (refl, tt))))))) (ground arith, (ground arith, tt))
