-- ===== src/Jobs/Runner/Laws.antt =====
-- What a run may do to the tables.
use release_engine.Prelude.{ℕ, String, ◌≡◌, false, some, Result, ok, err, if◌then◌else◌}
use release_engine.Jobs.Table.{Job, Db}
use release_engine.Jobs.Finalise.{
  FinaliseError, Faults, finalise_success, finalise_failure, finalise_terminal, Meanwhile,
}
use release_engine.Jobs.Finalise.Fence.{
  IsFencedOut, IsRefused, finalise_terminal_fenced, finalise_failure-IsRefused,
  finalise_success_fenced,
}
use release_engine.Jobs.Runner.{
  Environment, ExecOutcome, completed, terminal, retryable, fenced_job, params_of,
  version_or_latest, conclude, finalised, run_job,
}

finalised-IsRefused :
    (db : Db) (r : Db × Result FinaliseError (Unit {0}))
    → IsRefused db r
    → IsRefused db (finalised r)
finalised-IsRefused db (db', ok u) (same, failed) = absurd (failed tt)
finalised-IsRefused db (db', err e) (same, failed) = (same, λ h. h)

module _ (env : Environment) (faults : Faults) (now : ℕ) (between : Meanwhile)
    (id run_id : String) where
  conclude_fenced :
      (outcome : ExecOutcome) (db : Db)
      → IsFencedOut id run_id db.jobs
      → IsRefused db (conclude env faults now between id run_id outcome db)
  unfolding conclude finalise_failure finalise_terminal
  conclude_fenced completed db out =
      finalised-IsRefused db (finalise_success env.cron faults now between id run_id db)
        (finalise_success_fenced faults between id run_id db env.cron now out)
  conclude_fenced (terminal code message) db out =
      ((finalise_terminal_fenced faults between id run_id db code message out).0, λ h. h)
  conclude_fenced (retryable message) db out =
      ((finalise_failure-IsRefused faults id run_id "RUNNER_EXEC_FAILED" message db).0, λ h. h)

  -- A run that read its job, decoded the parameters and found the module, and whose job by the
  -- end of the execution is gone, belongs to another run or is not running, leaves the tables as
  -- the others made them and returns an error, however the module ended.
  pub run_job_fenced :
      (world : Db → Db) (db : Db) (j : Job) (params : env.Params) (m : env.Module)
      → fenced_job id run_id db.jobs ≡ some j
      → params_of env j.params_json ≡ some params
      → env.lookup_module j.path_key (version_or_latest env (env.version_of j.params_json)) ≡ some m
      → IsFencedOut id run_id (world db).jobs
      → IsRefused (world db) (run_job env false faults now between world id run_id db)
  unfolding run_job
  run_job_fenced world db j params m fetched decoded resolved out =
      rw (fetched, decoded, resolved, if◌then◌else◌, run_job) (conclude_fenced _ (world db) out)
