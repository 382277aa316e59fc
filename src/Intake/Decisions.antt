-- ===== src/Intake/Decisions.antt =====
-- `SubmitDecision` of internal/transport/http/job_handler.go where the handler has a pool, from the
-- decoded request on; its statements run one by one, in no transaction. Ids of steps are natural numbers.
pub mod Policy
pub mod Polls
pub mod Reuse
mod Tests
use release_engine.Prelude.{
  ℕ, String, Bool, true, false, not, ◌&&◌, ◌||◌, Option, none, some, List, [], ◌∷◌, ◌++◌, ◌==◌,
  ◌<>◌, eqb, any, map, if◌then◌else◌, Dict, lookup, trim_space, Result, ok, err,
}
use release_engine.Approval.State.{Runtime, DecisionOutput}
use release_engine.Approval.Policy.{ApprovalPolicyInput, evaluate_approval, contains}
use release_engine.Jobs.Table.{Job, StepRow, is_parked}
use release_engine.StepApi.Approvals.{Decision}

-- `decisionRequest`
pub record DecisionRequest : Type 0 where
  pub decision : String
  pub justification : String
  pub idempotency_key : String
  pub run_id : String

-- The three claims that are read, empty where there are none, and the headers X-Approver,
-- X-Approver-Role, X-Approver-Tenant and X-Run-ID, empty where absent.
pub record Caller : Type 0 where
  pub subject : String
  pub role : String
  pub tenant_id : String
  pub header_approver : String
  pub header_role : String
  pub header_tenant : String
  pub header_run_id : String

-- `strings.ToLower`, the hexadecimal SHA-256, and the texts that PostgreSQL takes for a `uuid`, which it
-- puts in one form, and for a `bigint`.
pub record Libraries : Type 1 where
  pub runtime : Runtime
  pub to_lower : String → String
  pub sha256_hex : String → String
  pub to_uuid : String → Option String
  pub to_bigint : String → Option ℕ

-- What the handler reads and writes.
pub record Gate : Type 0 where
  pub jobs : Dict Job
  pub steps : List StepRow
  pub decisions : List Decision

pub record DecisionFaults : Type 0 where
  pub acquire : Bool
  pub select : Bool
  pub select_id : Bool
  pub insert : Bool

abbrev pub no_decision_faults : DecisionFaults
no_decision_faults = record { acquire = false; select = false; select_id = false; insert = false }

-- The status and the code of a refusal.
pub data Refusal : Type 0 where
  not_found invalid_decision internal_error not_waiting policy_violation forbidden : Refusal

abbrev pub or_else : String → String → String
or_else value fallback = if value == "" then fallback else value

module _ (lib : Libraries) where
  -- `deriveDecisionIdempotencyKey`
  unfoldable pub derive_decision_idempotency_key : (approver step_id run_id : String) → String
  derive_decision_idempotency_key approver step_id run_id =
      lib.sha256_hex (approver <> ":" <> step_id <> ":" <> run_id)

  abbrev pub approver_of : Caller → String
  approver_of c = or_else (or_else c.subject c.header_approver) "anonymous"

  abbrev pub normal_decision : DecisionRequest → String
  normal_decision request = lib.to_lower (trim_space request.decision)

  -- The key as it stands before the database is read.
  unfoldable pub decision_key : String → Caller → DecisionRequest → String
  decision_key step_id c request = or_else request.idempotency_key (
      derive_decision_idempotency_key (approver_of c) step_id
        (or_else request.run_id c.header_run_id))

  abbrev pub is_step : String → ℕ → StepRow → Bool
  is_step job_id id r = r.job_id == job_id && eqb r.id id

  unfoldable pub find_step : String → ℕ → List StepRow → Option StepRow
  find_step job_id id [] = none
  find_step job_id id (r ∷ rs) = if is_step job_id id r then some r else find_step job_id id rs

  -- The steps joined with the jobs.
  unfoldable pub gate_row : String → ℕ → Gate → Option (StepRow × Job)
  gate_row job_id id g = elim (find_step job_id id g.steps) [
    | none ↦ none
    | some r ↦ elim (lookup job_id g.jobs) [ none ↦ none | some j ↦ some (r, j) ]
  ]

  -- COALESCE(created_by, '')
  abbrev pub owner_of : Job → String
  owner_of j = elim j.created_by [ none ↦ "" | some o ↦ o ]

  abbrev pub gate_policy : Caller → String → Job → ApprovalPolicyInput
  gate_policy c step_id j = record {
    approver = approver_of c;
    approver_role = or_else c.role c.header_role;
    approver_tenant_id = or_else c.tenant_id c.header_tenant;
    job_owner = owner_of j;
    job_tenant_id = j.tenant_id;
    path_key = j.path_key;
    step_key = step_id;
    blast_radius = "";
    metadata = [];
    allowed_roles = "release-manager" ∷ "team-lead" ∷ [];
    self_approval = false;
    min_approvers = 1;
  }

  -- `INSERT … ON CONFLICT (idempotency_key) DO UPDATE SET job_id = EXCLUDED.job_id`; `none` is a violation
  -- of UNIQUE (step_id, approver).
  unfoldable pub insert_decision : Decision → List Decision → Option (List Decision)
  insert_decision new ds =
      if any (λ d. d.idempotency_key == new.idempotency_key) ds
      then some (
          map
            (λ d.
              if d.idempotency_key == new.idempotency_key
              then record d { job_id = new.job_id }
              else d)
            ds)
      else if any (λ d. eqb d.step_id new.step_id && d.approver == new.approver) ds
      then none
      else some (ds ++ new ∷ [])

  abbrev pub new_decision : ℕ → String → ℕ → Caller → DecisionRequest → String → StepRow → Decision
  new_decision now job_id id c request key r = record {
    job_id = job_id;
    step_id = id;
    run_id = r.run_id;
    decision = normal_decision request;
    approver = approver_of c;
    justification = some request.justification;
    idempotency_key = key;
    created_at = now;
  }

  abbrev pub gate_output : ℕ → String → String → DecisionRequest → String → DecisionOutput
  gate_output now job_id step_id request key = record {
    job_id = job_id;
    step_id = step_id;
    decision = normal_decision request;
    state = "running";
    idempotency_key = key;
    idempotent_replay = false;
    remaining_approvals = 0;
    recorded_at = now;
    violations = [];
  }

  -- From the row of the step on.
  unfoldable pub decide_row :
      DecisionFaults
      → ℕ
      → (job_id step_id : String) → (uuid : String) → (id : ℕ) → Caller
      → DecisionRequest
      → StepRow × Job
      → Gate
      → Gate × Result Refusal DecisionOutput
  decide_row faults now job_id step_id uuid id c request (r, j) g =
      let verdict = evaluate_approval lib.runtime (gate_policy c step_id j) in
      let key =
        or_else (decision_key step_id c request)
          (derive_decision_idempotency_key (approver_of c) step_id r.run_id) in
      if not (is_parked r.status)
      then (g, err not_waiting)
      else if not verdict.allowed
      then (
        g,
        err (
            if contains verdict.violations "self_approval_blocked"
              || contains verdict.violations "budget_exceeded"
            then policy_violation
            else forbidden),
      )
      else if faults.select_id
      then (g, err not_found)
      else if faults.insert
      then (g, err internal_error)
      else elim (insert_decision (new_decision now uuid id c request key r) g.decisions) [
        | none ↦ (g, err internal_error)
        | some ds ↦ (record g { decisions = ds }, ok (gate_output now job_id step_id request key))
      ]

  -- `SubmitDecision` with a pool; `now` is the transaction's instant of the insertion.
  unfoldable pub submit_gate_decision :
      DecisionFaults
      → ℕ
      → (job_id step_id : String) → Caller
      → DecisionRequest
      → Gate
      → Gate × Result Refusal DecisionOutput
  submit_gate_decision faults now job_id step_id c request g =
      if job_id == "" || step_id == ""
      then (g, err not_found)
      else if not (normal_decision request == "approved" || normal_decision request == "rejected")
      then (g, err invalid_decision)
      else if faults.acquire || faults.select
      then (g, err internal_error)
      else elim (lib.to_uuid job_id) [
        | none ↦ (g, err internal_error)
        | some uuid ↦ elim (lib.to_bigint step_id) [
          | none ↦ (g, err internal_error)
          | some id ↦ elim (gate_row uuid id g) [
            | none ↦ (g, err not_found)
            | some row ↦ decide_row faults now job_id step_id uuid id c request row g
          ]
        ]
      ]
