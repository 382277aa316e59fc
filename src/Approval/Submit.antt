-- ===== src/Approval/Submit.antt =====
-- `ApprovalService.SubmitDecision` (internal/transport/http/services.go).
pub mod Cases
pub mod Quorum
use release_engine.Prelude.{
  ℕ, String, ◌-◌, ◌||◌, Bool, true, false, not, Option, none, some, [], ◌∷◌, ◌==◌, ltb, eqb, join,
  if◌then◌else◌, lookup, insert, count, is_some, Dict, Result, ok, err,
}
use release_engine.Prelude.Int.{duration_between}
use release_engine.Outbox
use release_engine.Approval.State.{
  Runtime, ApprovalPolicy, DecisionRecord, Step, decided, ApprovalEvent, approval_decision,
  approval_latency, DecisionInput, DecisionOutput, Log, Service, waiting_approval,
}
use release_engine.Approval.Policy.{
  ApprovalPolicyInput, ApprovalPolicyResult, contains, evaluate_approval,
}
use release_engine.Approval.Service.{step_map_key, record_metric, record_event}

pub data SubmitError : Type 0 where
  step_not_found not_waiting idempotency_conflict decision_conflict forbidden policy_violation :
      SubmitError

abbrev pub is_approved : DecisionRecord → Bool
is_approved d = d.decision == "approved"

-- `requiredApprovals`
abbrev pub required_approvals : ApprovalPolicy → ℕ
required_approvals p = if ltb p.min_approvers 1 then 1 else p.min_approvers

abbrev pub payload_hash : DecisionInput → String
payload_hash input =
    join "|"
      (input.job_id ∷ input.step_id ∷ input.decision ∷ input.justification ∷ input.approver ∷ [])

abbrev pub policy_input : DecisionInput → Step → ApprovalPolicyInput
policy_input input step = record {
  approver = input.approver;
  approver_role = input.approver_role;
  approver_tenant_id = input.approver_tenant_id;
  job_owner = step.job_owner;
  job_tenant_id = step.tenant_id;
  path_key = step.path_key;
  step_key = step.step_id;
  blast_radius = step.context.blast_radius;
  metadata = step.context.metadata;
  allowed_roles = step.policy.allowed_roles;
  self_approval = step.policy.self_approval;
  min_approvers = step.policy.min_approvers;
}

abbrev pub recorded : ℕ → DecisionInput → DecisionRecord
recorded now input = record {
  decision = input.decision;
  approver = input.approver;
  justification = input.justification;
  created_at = now;
}

-- `remaining`, cut off at 0 as `-` on ℕ does.
abbrev pub remaining_approvals : ApprovalPolicy → Dict DecisionRecord → ℕ
remaining_approvals policy decisions = required_approvals policy - count is_approved decisions

-- The step after the decision is recorded.
unfoldable pub decide : ℕ → DecisionInput → Step → Step
decide now input step =
    let decisions = insert input.approver (recorded now input) step.decisions in
    record step {
      decisions = decisions;
      status =
          if input.decision == "rejected"
          then "error"
          else if eqb (remaining_approvals step.policy decisions) 0
          then "running"
          else step.status;
    }

abbrev pub decision_output : ℕ → DecisionInput → Step → DecisionOutput
decision_output now input step = record {
  job_id = input.job_id;
  step_id = input.step_id;
  decision = input.decision;
  state = step.status;
  idempotency_key = input.idempotency_key;
  idempotent_replay = false;
  remaining_approvals = remaining_approvals step.policy step.decisions;
  recorded_at = now;
  violations = [];
}

abbrev pub decided_event : ℕ → DecisionInput → ApprovalEvent
decided_event now input = record {
  event_type = Outbox.approval_decided;
  job_id = input.job_id;
  step_id = input.step_id;
  occurred_at = now;
  payload = decided input.decision input.approver input.justification;
}

abbrev pub log_decision : ℕ → DecisionInput → Step → Log → Log
log_decision now input step log = record_event (decided_event now input) (
    record_metric
      (approval_latency step.tenant_id step.path_key (duration_between now step.requested_at))
      (record_metric (approval_decision step.tenant_id step.path_key step.step_id input.decision)
        log))

-- From `recordedAt := …` to the end, for an accepted decision.
unfoldable pub accept : ℕ → DecisionInput → Step → Service → Service × DecisionOutput
accept now input step s =
    let step' = decide now input step in
    let output = decision_output now input step' in
    (
      record s {
        steps = insert (step_map_key input.job_id input.step_id) step' s.steps;
        idem =
            insert input.idempotency_key
              (record { payload_hash = payload_hash input; output = output }) s.idem;
        log = log_decision now input step s.log;
      },
      output,
    )

abbrev pub refusal : ApprovalPolicyResult → SubmitError
refusal r =
    if contains r.violations "self_approval_blocked" || contains r.violations "budget_exceeded"
    then policy_violation
    else forbidden

module _ (rt : Runtime) where
  -- The guards behind the idempotency check, for a step that exists.
  unfoldable pub submit_fresh :
      ℕ → DecisionInput → Step → Service → Service × Result SubmitError DecisionOutput
  submit_fresh now input step s =
      let policy_result = evaluate_approval rt (policy_input input step) in
      let (s', output) = accept now input step s in
      if not (step.status == waiting_approval)
      then (s, err not_waiting)
      else if is_some (lookup input.approver step.decisions)
      then (s, err decision_conflict)
      else if not policy_result.allowed
      then (s, err (refusal policy_result))
      else (s', ok output)

  -- `SubmitDecision`
  unfoldable pub submit_decision :
      ℕ → DecisionInput → Service → Service × Result SubmitError DecisionOutput
  submit_decision now input s = elim (lookup (step_map_key input.job_id input.step_id) s.steps) [
    | none ↦ (s, err step_not_found)
    | some step ↦ elim (lookup input.idempotency_key s.idem) [
      | none ↦ submit_fresh now input step s
      | some existing ↦
          if not (existing.payload_hash == payload_hash input)
          then (s, err idempotency_conflict)
          else (s, ok (record (existing.output) { idempotent_replay = true }))
    ]
  ]
