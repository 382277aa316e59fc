-- ===== src/StepApi/Steps.antt =====
-- The rows of `steps` that a run writes. The three statements are upserts on (job_id, attempt,
-- step_key), whose update leaves `run_id` as it is; `fresh` is the next value of the serial id.
use release_engine.Prelude.{
  ℕ, String, Bool, ◌&&◌, Option, none, some, List, [], ◌∷◌, ◌==◌, eqb, if◌then◌else◌, Result, ok,
  err,
}
use release_engine.Jobs.Table.{StepStatus, StepRow, ok_status, error_status, waiting_approval}

-- The fields of the adapter that say whose run it is.
pub record Run : Type 0 where
  pub job_id : String
  pub run_id : String
  pub attempt : ℕ

pub data StepError : Type 0 where
  no_connection not_persisted begin_step_missing : StepError

unfoldable pub is_same_step : Run → String → StepRow → Bool
is_same_step run key r = (r.job_id == run.job_id && eqb r.attempt run.attempt) && r.step_key == key

-- INSERT … ON CONFLICT (job_id, attempt, step_key) DO UPDATE SET …
unfoldable pub upsert_step :
    Run → String → StepRow → (StepRow → StepRow) → List StepRow → List StepRow
upsert_step run key new set [] = new ∷ []
upsert_step run key new set (r ∷ rs) =
    if is_same_step run key r then set r ∷ rs else r ∷ upsert_step run key new set rs

abbrev pub new_row : ℕ → Run → String → StepStatus → Option String → Option String → StepRow
new_row fresh run key status code msg = record {
  id = fresh;
  job_id = run.job_id;
  run_id = run.run_id;
  attempt = run.attempt;
  step_key = key;
  status = status;
  error_code = code;
  error_message = msg;
}

-- What the upserts share; `fails` is an error of `Exec`, and each acquires a connection first.
unfoldable pub persist :
    (no_conn fails : Bool)
    → Run
    → String
    → StepRow
    → (StepRow → StepRow)
    → List StepRow
    → List StepRow × Result StepError (Unit {0})
persist no_conn bad run key new set rows =
    if no_conn
    then (rows, err no_connection)
    else if bad
    then (rows, err not_persisted)
    else (upsert_step run key new set rows, ok tt)

unfoldable pub end_step_ok :
    (no_conn fails : Bool)
    → ℕ
    → Run
    → String
    → List StepRow
    → List StepRow × Result StepError (Unit {0})
unfolding persist
end_step_ok no_conn bad fresh run key =
    persist no_conn bad run key (new_row fresh run key ok_status none none)
      (λ r. record r { status = ok_status })

unfoldable pub end_step_err :
    (no_conn fails : Bool)
    → ℕ
    → Run
    → (key code msg : String) → List StepRow
    → List StepRow × Result StepError (Unit {0})
unfolding persist
end_step_err no_conn bad fresh run key code msg =
    persist no_conn bad run key (new_row fresh run key error_status (some code) (some msg))
      (λ r. record r { status = error_status; error_code = some code; error_message = some msg })

-- The insert of `WaitForApproval`; `current_step` is what `BeginStep` set, "" before it.
unfoldable pub park :
    (no_conn fails : Bool)
    → ℕ
    → Run
    → (current_step : String) → List StepRow
    → List StepRow × Result StepError (Unit {0})
unfolding persist
park no_conn bad fresh run current_step rows =
    if current_step == ""
    then (rows, err begin_step_missing)
    else persist no_conn bad run current_step
        (new_row fresh run current_step waiting_approval none none)
        (λ r. record r { status = waiting_approval }) rows
