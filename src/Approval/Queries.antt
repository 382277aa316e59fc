-- ===== src/Approval/Queries.antt =====
-- The read-only operations of `ApprovalService` (internal/transport/http/services.go).
pub mod Laws
use release_engine.Prelude.{
  ℕ, String, ◌-◌, ◌&&◌, Bool, true, false, not, Option, none, some, List, [], ◌∷◌, map, ◌==◌, leb,
  length, any, if◌then◌else◌, Dict, lookup, count, sort, lt_text, Result, ok, err,
}
use release_engine.Approval.State.{
  ApprovalContext, ApprovalPolicy, DecisionRecord, Step, Service, waiting_approval,
}
use release_engine.Approval.Service.{step_map_key}
use release_engine.Approval.Submit.{SubmitError, step_not_found, is_approved, remaining_approvals}

pub record ApprovalTally : Type 0 where
  pub approved : ℕ
  pub rejected : ℕ
  pub remaining_to_approve : ℕ

pub record ApprovalContextResponse : Type 0 where
  pub job_id : String
  pub step_id : String
  pub status : String
  pub context : ApprovalContext
  pub policy : ApprovalPolicy
  pub tally : ApprovalTally
  pub decisions : List DecisionRecord
  pub expires_at : Option ℕ

pub record PendingApprovalJob : Type 0 where
  pub job_id : String
  pub tenant_id : String
  pub path_key : String
  pub step_id : String
  pub step_status : String

abbrev pub is_rejected : DecisionRecord → Bool
is_rejected d = d.decision == "rejected"

abbrev pub created_before : DecisionRecord → DecisionRecord → Bool
created_before a b = leb a.created_at b.created_at

-- `GetApprovalContext`
unfoldable pub get_approval_context :
    String → String → Service → Result SubmitError ApprovalContextResponse
get_approval_context job_id step_id s = elim (lookup (step_map_key job_id step_id) s.steps) [
  | none ↦ err step_not_found
  | some step ↦ ok (record {
    job_id = step.job_id;
    step_id = step.step_id;
    status = step.status;
    context = step.context;
    policy = step.policy;
    tally = record {
      approved = count is_approved step.decisions;
      rejected = count is_rejected step.decisions;
      remaining_to_approve = remaining_approvals step.policy step.decisions;
    };
    decisions = sort created_before (map (λ e. e.1) step.decisions);
    expires_at = step.expires_at;
  })
]

abbrev pub pending_job : Step → PendingApprovalJob
pending_job step = record {
  job_id = step.job_id;
  tenant_id = step.tenant_id;
  path_key = step.path_key;
  step_id = step.step_id;
  step_status = step.status;
}

-- None of the `continue`s of the loop is taken.
unfoldable pub is_listed : String → String → Step → Bool
is_listed tenant_id role step =
    step.status == waiting_approval
    && (not (not (tenant_id == "") && not (step.tenant_id == tenant_id))
        && not (
            not (role == "")
            && (leb 1 (length step.policy.allowed_roles)
                && not (any (λ r. r == role) step.policy.allowed_roles))))

unfoldable pub pending_jobs : String → String → Dict Step → List PendingApprovalJob
pending_jobs tenant_id role [] = []
pending_jobs tenant_id role ((k, step) ∷ m) =
    let rest = pending_jobs tenant_id role m in
    if is_listed tenant_id role step then pending_job step ∷ rest else rest

-- The comparison that `sort.Slice` is given.
unfoldable pub listed_before : PendingApprovalJob → PendingApprovalJob → Bool
listed_before a b =
    if a.tenant_id == b.tenant_id
    then (if a.job_id == b.job_id then lt_text a.step_id b.step_id else lt_text a.job_id b.job_id)
    else lt_text a.tenant_id b.tenant_id

-- `ListPendingJobs`
unfoldable pub list_pending_jobs : String → String → Service → List PendingApprovalJob
list_pending_jobs tenant_id role s =
    sort (λ a b. not (listed_before b a)) (pending_jobs tenant_id role s.steps)
