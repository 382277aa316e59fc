-- ===== src/StepApi/Approvals.antt =====
-- How `WaitForApproval` (internal/runner/step_api.go) reads its decision. One poll is a SELECT on
-- `approval_decisions`, of which a row's instants are nanoseconds; the loop ends with the first poll that
-- finds a row.
pub mod Laws
use release_engine.Prelude.{
  ℕ, String, ◌&&◌, Option, none, some, List, [], ◌∷◌, ◌==◌, eqb, leb, if◌then◌else◌,
}
use release_engine.Jobs.Table.{StepRow}
use release_engine.StepApi.Steps.{Run, is_same_step}

-- The columns of `approval_decisions` that are read, and the one that is its second unique index.
pub record Decision : Type 0 where
  pub job_id : String
  pub step_id : ℕ
  pub run_id : String
  pub decision : String
  pub approver : String
  pub justification : Option String
  pub idempotency_key : String
  pub created_at : ℕ

pub record Outcome : Type 0 where
  pub decision : String
  pub approver : String
  pub justification : String
  pub decided_at : ℕ

-- `SELECT id FROM steps WHERE job_id = … AND run_id = … AND attempt = … AND step_key = …`, of which
-- the greatest is taken.
unfoldable pub own_step : Run → String → List StepRow → Option ℕ
own_step run key [] = none
own_step run key (r ∷ rs) =
    let rest = own_step run key rs in
    if is_same_step run key r && r.run_id == run.run_id
    then elim rest [ none ↦ some r.id | some n ↦ if leb r.id n then some n else some r.id ]
    else rest

-- The newest of the decisions on the step by the run.
unfoldable pub newest : Run → ℕ → List Decision → Option Decision
newest run step_id [] = none
newest run step_id (d ∷ ds) =
    let rest = newest run step_id ds in
    if (d.job_id == run.job_id && d.run_id == run.run_id) && eqb d.step_id step_id
    then elim rest [
      | none ↦ some d
      | some e ↦ if leb e.created_at d.created_at then some d else some e
    ]
    else rest

abbrev outcome_of : Decision → Outcome
outcome_of d = record {
  decision = d.decision;
  approver = d.approver;
  justification = elim d.justification [ none ↦ "" | some j ↦ j ];
  decided_at = d.created_at;
}

-- One poll: a `step_id = NULL` holds of no row.
unfoldable pub poll : Run → String → List StepRow → List Decision → Option Outcome
poll run key rows decisions = elim (own_step run key rows) [
  | none ↦ none
  | some step_id ↦ elim (newest run step_id decisions) [
    | none ↦ none
    | some d ↦ some (outcome_of d)
  ]
]
