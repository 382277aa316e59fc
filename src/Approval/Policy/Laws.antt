-- ===== src/Approval/Policy/Laws.antt =====
-- The policy engine permits exactly what the approval policy authorises.
use mathlib.Core.List.{Memᴰ}
use release_engine.Prelude.{
  String, ◌≡◌, refl, ◌≢◌, ◌↔◌, ◌⊎◌, inl, inr, true, false, some, List, [], ◌∷◌, eq_iff, arith,
  any-find, any_of_mem, Option-cases,
}
use release_engine.Approval.State.{Runtime}
use release_engine.Approval.Policy.{
  ApprovalPolicyInput, parse_float, over_budget, role_refused, evaluate_approval,
}

module _ (rt : Runtime) where
  -- The approver's role is one of those allowed, where any are named.
  abbrev pub HasRole : List String → String → Type 0
  HasRole roles role = (roles ≡ []) ⊎ ((r : String) × Memᴰ r roles × (rt.equal_fold r role ≡ true))

  -- Where both figures can be read, the cost stays within the approver's limit.
  abbrev pub WithinBudget : ApprovalPolicyInput → Type 0
  WithinBudget input =
      (estimated limit : rt.Float)
      → parse_float rt input.metadata "estimated_cost" ≡ some estimated
      → parse_float rt input.metadata "approver_limit" ≡ some limit
      → rt.exceeds estimated limit ≡ false

  pub record IsAuthorised (input : ApprovalPolicyInput) : Type 0 where
    pub named : input.approver ≢ ""
    pub independent :
        (input.self_approval ≡ true) ⊎ (input.job_owner ≡ "") ⊎ (input.approver ≢ input.job_owner)
    pub same_tenant : (input.job_tenant_id ≡ "") ⊎ (input.approver_tenant_id ≡ input.job_tenant_id)
    pub role : HasRole input.allowed_roles input.approver_role
    pub budget : WithinBudget input

  role_refused_lem :
      (roles : List String) (role : String)
      → role_refused rt roles role ≡ false
      → HasRole roles role
  unfolding role_refused
  role_refused_lem [] role h = inl refl
  role_refused_lem (r ∷ rs) role h = inr (any-find _ (r ∷ rs) (ground arith))

  role_refused_of :
      (roles : List String) (role : String)
      → HasRole roles role
      → role_refused rt roles role ≡ false
  unfolding role_refused
  role_refused_of roles role (inl e) = rw e
  role_refused_of roles role (inr (r, m, hit)) =
      ground (arith, any_of_mem (λ r'. rt.equal_fold r' role) roles m hit)

  budget_lem :
      (input : ApprovalPolicyInput) → over_budget rt input.metadata ≡ false → WithinBudget input
  unfolding over_budget
  budget_lem input h e l pe pl = rw (pe, pl, over_budget) at h

  budget_of :
      (input : ApprovalPolicyInput) → WithinBudget input → over_budget rt input.metadata ≡ false
  unfolding over_budget
  budget_of input w = elim (Option-cases (parse_float rt input.metadata "estimated_cost")) [
    | inl e ↦ rw (e, over_budget)
    | inr (x, e) ↦ elim (Option-cases (parse_float rt input.metadata "approver_limit")) [
      | inl f ↦ rw (e, f, over_budget)
      | inr (y, f) ↦ rw (e, f, over_budget) (w x y e f)
    ]
  ]

  permitted_named :
      (input : ApprovalPolicyInput)
      → (evaluate_approval rt input).allowed ≡ true
      → (input.approver ≢ "")
        × ((input.self_approval ≡ true)
            ⊎ (input.job_owner ≡ "")
            ⊎ (input.approver ≢ input.job_owner))
  unfolding evaluate_approval
  permitted_named input h = ground (
    arith,
    eq_iff input.approver "",
    eq_iff input.job_owner "",
    eq_iff input.approver input.job_owner,
  )

  permitted_tenant :
      (input : ApprovalPolicyInput)
      → (evaluate_approval rt input).allowed ≡ true
      → (input.job_tenant_id ≡ "") ⊎ (input.approver_tenant_id ≡ input.job_tenant_id)
  unfolding evaluate_approval
  permitted_tenant input h =
      ground
        (arith, eq_iff input.job_tenant_id "", eq_iff input.approver_tenant_id input.job_tenant_id)

  permitted_tests :
      (input : ApprovalPolicyInput)
      → (evaluate_approval rt input).allowed ≡ true
      → (role_refused rt input.allowed_roles input.approver_role ≡ false)
        × (over_budget rt input.metadata ≡ false)
  unfolding evaluate_approval
  permitted_tests input h = ground arith

  permits_authorised :
      (input : ApprovalPolicyInput)
      → IsAuthorised input
      → (evaluate_approval rt input).allowed ≡ true
  unfolding evaluate_approval
  permits_authorised input a = ground (
    arith,
    a.named,
    a.independent,
    a.same_tenant,
    role_refused_of input.allowed_roles input.approver_role a.role,
    budget_of input a.budget,
    eq_iff input.approver "",
    eq_iff input.job_owner "",
    eq_iff input.approver input.job_owner,
    eq_iff input.job_tenant_id "",
    eq_iff input.approver_tenant_id "",
    eq_iff input.approver_tenant_id input.job_tenant_id,
  )

  -- The engine permits a decision exactly when the approver is named, is not the job's owner
  -- unless self approval is allowed, is of the job's tenant if the job has one, has an allowed
  -- role if any are listed, and is not over the budget that the metadata names.
  pub evaluate_approval_iff :
      (input : ApprovalPolicyInput)
      → ((evaluate_approval rt input).allowed ≡ true) ↔ IsAuthorised input
  evaluate_approval_iff input = (
    λ h. record {
      named = (permitted_named input h).0;
      independent = (permitted_named input h).1;
      same_tenant = permitted_tenant input h;
      role = role_refused_lem _ _ (permitted_tests input h).0;
      budget = budget_lem input (permitted_tests input h).1;
    },
    permits_authorised input,
  )
