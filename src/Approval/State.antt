-- ===== src/Approval/State.antt =====
-- The types of internal/transport/http/services.go. Instants and durations are nanoseconds in ℕ,
-- and 0 is the zero `time.Time`. `min_approvers` holds 0 for every value below 1, which the code
-- treats alike.
use release_engine.Prelude.{ℕ, String, ◌≡◌, Bool, List, Option, Dict}
use release_engine.Prelude.Int.{ℤ}
use release_engine.Outbox.{Event, Dispatcher}

-- What Go's libraries compute: `strconv.ParseFloat(raw, 64)`, `>` on float64, `strings.EqualFold`,
-- and `time.Duration(float64(total) * s.escalationAt)`.
pub record Runtime : Type 1 where
  pub Float : Type 0
  pub parse_float : String → Option Float
  pub exceeds : Float → Float → Bool
  pub equal_fold : String → String → Bool
  pub escalation_delay : ℕ → ℕ

pub record ApprovalContext : Type 0 where
  pub summary : String
  pub detail : String
  pub blast_radius : String
  pub policy_ref : String
  pub metadata : Dict String

pub record ApprovalPolicy : Type 0 where
  pub required : Bool
  pub min_approvers : ℕ
  pub allowed_roles : List String
  pub self_approval : Bool

pub record DecisionRecord : Type 0 where
  pub decision : String
  pub approver : String
  pub justification : String
  pub created_at : ℕ

-- `approvalStepState`
pub record Step : Type 0 where
  pub job_id : String
  pub step_id : String
  pub tenant_id : String
  pub path_key : String
  pub status : String
  pub job_owner : String
  pub context : ApprovalContext
  pub policy : ApprovalPolicy
  pub requested_at : ℕ
  pub expires_at : Option ℕ
  pub escalated : Bool
  pub decisions : Dict DecisionRecord

-- The `map[string]any` of each kind of event.
pub data Payload : Type 0 where
  requested :
      (approval_request : ApprovalContext) (policy_ref : String) (expires_at : Option ℕ) → Payload
  escalated : (elapsed remaining : ℤ) (approval_request : ApprovalContext) → Payload
  expired : (reason : String) (original_request : ApprovalContext) (ttl_seconds : ℤ) → Payload
  decided : (decision approver justification : String) → Payload

-- `ApprovalEvent` has the fields of `outbox.Event`.
abbrev pub ApprovalEvent : Type 0
ApprovalEvent = Event Payload

-- A call of `ApprovalMetricsRecorder`.
pub data MetricCall : Type 0 where
  approval_request : (tenant_id path_key step_key : String) → MetricCall
  approval_decision : (tenant_id path_key step_key decision : String) → MetricCall
  approval_latency : (tenant_id path_key : String) (latency : ℤ) → MetricCall
  approval_escalation : (tenant_id path_key : String) → MetricCall
  approval_timeout : (tenant_id path_key : String) → MetricCall
  approval_worker_tick : (status : String) → MetricCall

pub record DecisionInput : Type 0 where
  pub job_id : String
  pub step_id : String
  pub decision : String
  pub justification : String
  pub idempotency_key : String
  pub approver : String
  pub approver_role : String
  pub approver_tenant_id : String

pub record DecisionOutput : Type 0 where
  pub job_id : String
  pub step_id : String
  pub decision : String
  pub state : String
  pub idempotency_key : String
  pub idempotent_replay : Bool
  pub remaining_approvals : ℕ
  pub recorded_at : ℕ
  pub violations : List String

pub record IdempotencyRecord : Type 0 where
  pub payload_hash : String
  pub output : DecisionOutput

-- The fields of `ApprovalService` that the service only writes to; `none` is a nil interface.
pub record Log : Type 0 where
  pub events : List ApprovalEvent
  pub outbox : Option (Dispatcher Payload)
  pub metrics : Option (List MetricCall)

pub record Service : Type 0 where
  pub steps : Dict Step
  pub idem : Dict IdempotencyRecord
  pub log : Log
  pub default_ttl : ℕ

abbrev pub waiting_approval : String
waiting_approval = "waiting_approval"

-- `step.status != "waiting_approval"` is the negation of this.
abbrev pub IsWaiting : Step → Type 0
IsWaiting st = st.status ≡ waiting_approval
