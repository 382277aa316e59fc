-- ===== src/Approval/Policy.antt =====
-- `PolicyEngine` and its helpers (internal/transport/http/services.go).
pub mod Laws
use release_engine.Prelude.{
  ℕ, String, Bool, true, false, not, ◌&&◌, Option, none, some, List, [], ◌∷◌, ◌==◌, leb, length,
  any, if◌then◌else◌, Dict, lookup, trim_space,
}
use release_engine.Approval.State.{Runtime}

-- The fields that the engine reads; `PathKey`, `StepKey`, `BlastRadius` and `MinApprovers` are
-- carried and never read.
pub record ApprovalPolicyInput : Type 0 where
  pub approver : String
  pub approver_role : String
  pub approver_tenant_id : String
  pub job_owner : String
  pub job_tenant_id : String
  pub path_key : String
  pub step_key : String
  pub blast_radius : String
  pub metadata : Dict String
  pub allowed_roles : List String
  pub self_approval : Bool
  pub min_approvers : ℕ

pub record ApprovalPolicyResult : Type 0 where
  pub allowed : Bool
  pub reason : String
  pub violations : List String

abbrev pub refuse : String → String → ApprovalPolicyResult
refuse reason violation = record { allowed = false; reason = reason; violations = violation ∷ [] }

abbrev pub permit : ApprovalPolicyResult
permit = record { allowed = true; reason = ""; violations = [] }

unfoldable pub contains : List String → String → Bool
contains values target = any (λ value. value == target) values

module _ (rt : Runtime) where
  unfoldable pub parse_float : Dict String → String → Option rt.Float
  parse_float values key = elim (lookup key values) [
    | none ↦ none
    | some raw ↦ if trim_space raw == "" then none else rt.parse_float raw
  ]

  -- The last `if`: both figures parse and the estimate exceeds the limit.
  unfoldable pub over_budget : Dict String → Bool
  over_budget metadata = elim (parse_float metadata "estimated_cost") [
    | none ↦ false
    | some estimated ↦ elim (parse_float metadata "approver_limit") [
      | none ↦ false
      | some limit ↦ rt.exceeds estimated limit
    ]
  ]

  -- `len(AllowedRoles) > 0` and no role folds to the approver's.
  unfoldable pub role_refused : List String → String → Bool
  role_refused roles approver_role =
      leb 1 (length roles) && not (any (λ role. rt.equal_fold role approver_role) roles)

  unfoldable pub evaluate_approval : ApprovalPolicyInput → ApprovalPolicyResult
  evaluate_approval input =
      if approver == ""
      then refuse "missing approver" "approver_missing"
      else if not self_approval && (not (job_owner == "") && approver == job_owner)
      then refuse "self approval blocked" "self_approval_blocked"
      else if not (job_tenant_id == "") && approver_tenant_id == ""
      then refuse "approver tenant missing" "approver_tenant_missing"
      else if not (job_tenant_id == "") && not (approver_tenant_id == job_tenant_id)
      then refuse "tenant scope mismatch" "tenant_scope_mismatch"
      else if role_refused allowed_roles approver_role
      then refuse "role not authorised" "role_not_allowed"
      else if over_budget metadata
      then refuse "budget authority exceeded" "budget_exceeded"
      else permit
    where
      open input use {
        approver, approver_role, approver_tenant_id, job_owner, job_tenant_id, metadata,
        allowed_roles, self_approval,
      }
