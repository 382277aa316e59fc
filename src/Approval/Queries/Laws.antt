-- ===== src/Approval/Queries/Laws.antt =====
-- What the read-only operations show of the service.
use mathlib.Core.List.{Memᴰ}
use release_engine.Prelude.{
  any_of_mem, any-find, any, length, leb, ◌&&◌, eq_iff, not, ◌⊎◌, arith, List, ℕ, ap, String, ◌≡◌,
  ◌↔◌, inl, inr, refl, sym, true, false, [], ◌∷◌, Bool-cases, Dict, mem-sort, mem_of_sort, ok,
  lookup-insert, eq_refl,
}
use release_engine.Approval.State.{Step, Service, Runtime, DecisionInput, DecisionOutput}
use release_engine.Approval.Submit.{submit_decision, accept, decision_output, decide}
use release_engine.Approval.Submit.Cases.{submit_cases, refused, replayed, accepted}
use release_engine.Approval.Queries.{
  PendingApprovalJob, ApprovalContextResponse, get_approval_context, is_listed, pending_job,
  pending_jobs, list_pending_jobs,
}
use release_engine.Prelude.{◌==◌}
use mathlib.Core.Path.{◌∙◌, subst}

-- A step that waits, is of the tenant (any for the empty name), and allows the role (any for the empty
-- role, or where no role is named).
abbrev IsShown : String → String → Step → Type 0
IsShown tenant_id role st =
    (st.status ≡ "waiting_approval")
    × ((tenant_id ≡ "") ⊎ (st.tenant_id ≡ tenant_id))
    × ((role ≡ "") ⊎ ((st.policy.allowed_roles ≡ []) ⊎ Memᴰ role st.policy.allowed_roles))

role_iff :
    (role : String) (rs : List String)
    → (not (not (role == "") && (leb 1 (length rs) && not (any (λ r. r == role) rs))) ≡ true)
      ↔ ((role ≡ "") ⊎ ((rs ≡ []) ⊎ Memᴰ role rs))
role_iff role [] = (λ h. inr (inl refl), λ h. ground arith)
role_iff role (x ∷ xs) = (
  λ h. elim (Bool-cases (role == "")) [
    | inl e ↦ inl ((eq_iff role "").0 e)
    | inr given ↦
        let (y, m, same) = any-find (λ r. r == role) (x ∷ xs) (ground (arith, h, given)) in
        inr (inr (subst (λ r. Memᴰ r (x ∷ xs)) ((eq_iff y role).0 same) m))
  ],
  λ h. elim h [
    | inl e ↦ let empty = (eq_iff role "").1 e in ground (arith, empty)
    | inr (inl e) ↦ cc
    | inr (inr m) ↦ ground (arith, any_of_mem (λ r. r == role) (x ∷ xs) m (eq_refl role))
  ],
)

is_listed_iff :
    (tenant_id role : String) (st : Step)
    → (is_listed tenant_id role st ≡ true) ↔ IsShown tenant_id role st
unfolding is_listed
is_listed_iff tenant_id role st =
    let roles = role_iff role st.policy.allowed_roles in
    (
      λ h. (
        ground (arith, h, eq_iff st.status "waiting_approval"),
        elim (Bool-cases (tenant_id == "")) [
          | inl e ↦ inl ((eq_iff tenant_id "").0 e)
          | inr given ↦ inr ((eq_iff st.tenant_id tenant_id).0 (ground (arith, h, given)))
        ],
        roles.0 (ground (arith, h)),
      ),
      λ (waits, tenant, allowed).
          let by_role = roles.1 allowed in
          let parked = (eq_iff st.status "waiting_approval").1 waits in
          elim tenant [
            | inl e ↦
                let any_tenant = (eq_iff tenant_id "").1 e in
                ground (arith, by_role, parked, any_tenant)
            | inr e ↦
                let own = (eq_iff st.tenant_id tenant_id).1 e in
                ground (arith, by_role, parked, own)
          ],
    )

-- The step behind an entry of the list.
abbrev pub IsPending : String → String → Dict Step → PendingApprovalJob → Type 0
IsPending tenant_id role m p =
    (k : String) × (st : Step) × Memᴰ (k, st) m
    × IsShown tenant_id role st
    × (p ≡ record {
      job_id = st.job_id;
      tenant_id = st.tenant_id;
      path_key = st.path_key;
      step_id = st.step_id;
      step_status = "waiting_approval";
    })

pending_job_lem :
    (st : Step)
    → st.status ≡ "waiting_approval"
    → pending_job st ≡ record {
      job_id = st.job_id;
      tenant_id = st.tenant_id;
      path_key = st.path_key;
      step_id = st.step_id;
      step_status = "waiting_approval";
    }
pending_job_lem st waits = rw waits refl

module _ (tenant_id role : String) where
  IsPending-sound :
      (m : Dict Step) (p : PendingApprovalJob)
      → Memᴰ p (pending_jobs tenant_id role m)
      → IsPending tenant_id role m p
  unfolding pending_jobs
  IsPending-sound [] p mem = elim mem [ ]
  IsPending-sound ((k, st) ∷ m) p mem = go (IsPending-sound m p) mem
    where
      later : IsPending tenant_id role m p → IsPending tenant_id role ((k, st) ∷ m) p
      later (j, x, at_x, passes, e) = (j, x, Memᴰ.tail at_x, passes, e)

      first :
          is_listed tenant_id role st ≡ true
          → (Memᴰ p (pending_jobs tenant_id role m) → IsPending tenant_id role m p)
          → Memᴰ p (pending_job st ∷ pending_jobs tenant_id role m)
          → IsPending tenant_id role ((k, st) ∷ m) p
      first passes rest (Memᴰ.head e) =
          let shown = (is_listed_iff tenant_id role st).0 passes in
          (k, st, Memᴰ.head refl, shown, e ∙ pending_job_lem st shown.0)
      first passes rest (Memᴰ.tail mem) = later (rest mem)

      go :
          (Memᴰ p (pending_jobs tenant_id role m) → IsPending tenant_id role m p)
          → Memᴰ p (pending_jobs tenant_id role ((k, st) ∷ m))
          → IsPending tenant_id role ((k, st) ∷ m) p
      go rest mem = elim (Bool-cases (is_listed tenant_id role st)) [
        | inl passes ↦ first passes rest (rw (passes, pending_jobs) at mem)
        | inr fails ↦ later (rest (rw (fails, pending_jobs) at mem))
      ]

  pending_complete :
      (m : Dict Step) (k : String) (st : Step)
      → Memᴰ (k, st) m
      → is_listed tenant_id role st ≡ true
      → Memᴰ (pending_job st) (pending_jobs tenant_id role m)
  unfolding pending_jobs
  pending_complete [] k st mem passes = elim mem [ ]
  pending_complete ((j, x) ∷ m) k st (Memᴰ.head e) passes =
      let same : st ≡ x = ap (λ (q : String × Step). q.1) e in
      rw (← same, passes, pending_jobs) (Memᴰ.head refl)
  pending_complete ((j, x) ∷ m) k st (Memᴰ.tail mem) passes =
      let rest = pending_complete m k st mem passes in
      elim (Bool-cases (is_listed tenant_id role x)) [
        | inl hit ↦ rw (hit, pending_jobs) (Memᴰ.tail rest)
        | inr miss ↦ rw (miss, pending_jobs) rest
      ]

  -- An entry is listed by ListPendingJobs for a tenant and a role exactly if it has the job, the
  -- tenant, the path, the id and the status of a step of the service that waits for approval, is of the tenant (any, for the empty name), and allows
  -- the role (any, for the empty role or an empty list of allowed roles).
  pub list_pending_jobs_iff :
      (s : Service) (p : PendingApprovalJob)
      → Memᴰ p (list_pending_jobs tenant_id role s) ↔ IsPending tenant_id role s.steps p
  unfolding list_pending_jobs
  list_pending_jobs_iff s p = (
    λ mem. IsPending-sound s.steps p (mem_of_sort _ p _ mem),
    λ (k, st, at_st, shown, e). mem-sort _ p _ (
        subst (λ q. Memᴰ q (pending_jobs tenant_id role s.steps))
          (sym (e ∙ sym (pending_job_lem st shown.0)))
          (pending_complete s.steps k st at_st ((is_listed_iff tenant_id role st).1 shown))),
  )

-- After a submission that is accepted, and is no replay, GetApprovalContext of its step answers,
-- with the status and the number of missing approvals that the submission returned.
pub get_approval_context-submit :
    (rt : Runtime) (now : ℕ) (input : DecisionInput) (s : Service) (out : DecisionOutput)
    → (submit_decision rt now input s).1 ≡ ok out
    → out.idempotent_replay ≡ false
    → (r : ApprovalContextResponse) × (get_approval_context input.job_id input.step_id
          (submit_decision rt now input s).0
        ≡ ok r)
      × (r.status ≡ out.state)
      × (r.tally.remaining_to_approve ≡ out.remaining_approvals)
unfolding accept get_approval_context
get_approval_context-submit rt now input s out done fresh = elim (submit_cases rt now input s) [
  | refused e same ↦ cc
  | replayed st old found known hash same ↦ cc
  | accepted st found new w first leave same ↦
      let said : decision_output now input (decide now input st) ≡ out = cc in
      rw (same, lookup-insert, eq_refl, get_approval_context)
        (
          _,
          refl,
          ap (λ (o : DecisionOutput). o.state) said,
          ap (λ (o : DecisionOutput). o.remaining_approvals) said,
        )
]
