-- ===== src/Jobs/Runner.antt =====
-- `RunJob` of internal/runner/service.go. The module's `Execute` is code of its own: `execute` is how
-- it ends, `world` what it and every other process do to the tables meanwhile, and `Meanwhile` what others
-- do between the statements of a finalisation. Connector and
-- context wiring of the step API does not touch the tables and is left out.
pub mod Laws
pub mod Retries
use release_engine.Prelude.{
  ℕ, String, Bool, true, false, ◌&&◌, Option, none, some, ◌==◌, if◌then◌else◌, Dict, lookup, Result,
  ok, err, ◌<>◌,
}
use release_engine.Jobs.Table.{Job, is_running, Db}
use release_engine.Jobs.Finalise.{
  Faults, Meanwhile, FinaliseError, Cron, finalise_success, finalise_failure, finalise_terminal,
}

-- How `module.Execute` returns: nil, a `TerminalError` in the chain, or another error.
pub data ExecOutcome : Type 0 where
  completed : ExecOutcome
  terminal : (code message : String) → ExecOutcome
  retryable : (message : String) → ExecOutcome

-- What the runner calls: JSON, the module registry, the module and the cron parser.
pub record Environment : Type 1 where
  pub Params : Type 0
  pub Module : Type 0
  pub empty_params : Params
  pub decode : String → Option Params
  pub version_of : String → String
  pub lookup_module : String → String → Option Module
  -- The job's id, run id and attempt are set in the parameters.
  pub execute : Module → Params → (job_id run_id : String) → (attempt : ℕ) → ExecOutcome
  pub cron : Cron

pub data RunError : Type 0 where
  no_job decode_failed module_not_found : RunError
  execution_failed : ExecOutcome → RunError
  finalise_failed : FinaliseError → RunError

-- `WHERE id = $1 AND run_id = $2 AND state = 'running'`
unfoldable pub fenced_job : String → String → Dict Job → Option Job
fenced_job id run_id jobs = elim (lookup id jobs) [
  | none ↦ none
  | some j ↦ if j.run_id == run_id && is_running j.state then some j else none
]

abbrev pub finalised : Db × Result FinaliseError (Unit {0}) → Db × Result RunError (Unit {0})
finalised (db, ok u) = (db, ok u)
finalised (db, err e) = (db, err (finalise_failed e))

module _ (env : Environment) where
  unfoldable pub params_of : String → Option env.Params
  params_of raw = if raw == "" then some env.empty_params else env.decode raw

  abbrev pub version_or_latest : String → String
  version_or_latest v = if v == "" then "latest" else v

  -- What follows `Execute`; the errors of the two failing finalisations are dropped.
  unfoldable pub conclude :
      Faults
      → ℕ
      → Meanwhile
      → (id run_id : String) → ExecOutcome
      → Db
      → Db × Result RunError (Unit {0})
  conclude faults now between id run_id completed db =
      finalised (finalise_success env.cron faults now between id run_id db)
  conclude faults now between id run_id (terminal code message) db = (
    (finalise_terminal faults between id run_id code message db).0,
    err (execution_failed (terminal code message)),
  )
  conclude faults now between id run_id (retryable message) db = (
    (finalise_failure faults id run_id "RUNNER_EXEC_FAILED" message db).0,
    err (execution_failed (retryable message)),
  )

  -- `RunJob`; `fetch_fails` is an error of `Acquire` or of the first query.
  unfoldable pub run_job :
      (fetch_fails : Bool)
      → Faults
      → ℕ
      → Meanwhile
      → (world : Db → Db) → (id run_id : String) → Db
      → Db × Result RunError (Unit {0})
  unfolding params_of conclude
  run_job fetch_fails faults now between world id run_id db =
      if fetch_fails then (db, err no_job) else elim (fenced_job id run_id db.jobs) [
        | none ↦ (db, err no_job)
        | some j ↦ elim (params_of j.params_json) [
          | none ↦ (db, err decode_failed)
          | some params ↦
              elim (env.lookup_module j.path_key
                (version_or_latest (env.version_of j.params_json))) [
                  | none ↦ (
                    (finalise_failure faults id run_id "MODULE_NOT_FOUND"
                        ("module "
                          <> (j.path_key
                              <> (":"
                                  <> (version_or_latest (env.version_of j.params_json)
                                      <> " not found"))))
                        db).0,
                    err module_not_found,
                  )
                  | some m ↦
                      conclude faults now between id run_id
                        (env.execute m params id run_id j.attempt) (world db)
                ]
        ]
      ]
