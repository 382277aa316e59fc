-- ===== src/Approval/Submit/Quorum.antt =====
-- What the decisions of a step say about its status, and that a decision keeps it so.
use release_engine.Prelude.{
  ℕ, String, ◌≤◌, ◌<◌, ◌≡◌, refl, ◌≢◌, ◌⊎◌, inr, true, eq_iff, arith, count, Distinct,
  Distinct-insert, AllEntries, AllEntries-insert,
}
use release_engine.Approval.State.{DecisionRecord, Step, DecisionInput, waiting_approval, IsWaiting}
use release_engine.Approval.Submit.{is_approved, required_approvals, recorded, decide}

-- Who may be counted: a named approver who is not the owner, unless owners may approve.
abbrev pub MayCount : Step → String → Type 0
MayCount st who =
    (who ≢ "") × ((st.policy.self_approval ≡ true) ⊎ (st.job_owner ≡ "") ⊎ (who ≢ st.job_owner))

abbrev pub IsRejection : DecisionRecord → Type 0
IsRejection d = d.decision ≡ "rejected"

pub record IsQuorate (st : Step) : Type 0 where
  -- No approver has two decisions, and each is filed under its approver.
  pub distinct : Distinct st.decisions
  pub filed : AllEntries (λ k d. d.approver ≡ k) st.decisions
  -- A step runs only with its quorum, and waits only without it.
  pub reached :
      st.status ≡ "running" → required_approvals st.policy ≤ count is_approved st.decisions
  pub missing : IsWaiting st → count is_approved st.decisions < required_approvals st.policy
  -- A rejection ends the wait.
  pub unopposed :
      (st.status ≡ "running") ⊎ IsWaiting st → AllEntries (λ k d. ¬ IsRejection d) st.decisions
  -- Every approval is by somebody who may be counted.
  pub eligible : AllEntries (λ k d. d.decision ≡ "approved" → MayCount st k) st.decisions

pub running_ne_waiting : ◌≢◌ {A = String} "running" waiting_approval
running_ne_waiting = ground (arith, eq_iff "running" waiting_approval)

pub error_ne_waiting : ◌≢◌ {A = String} "error" waiting_approval
error_ne_waiting = ground (arith, eq_iff "error" waiting_approval)

pub error_ne_running : ◌≢◌ {A = String} "error" "running"
error_ne_running = ground (arith, eq_iff "error" "running")

module _ (now : ℕ) (input : DecisionInput) (st : Step) (waits : IsWaiting st) where
  decide_reached :
      (decide now input st).status ≡ "running"
      → required_approvals st.policy ≤ count is_approved (decide now input st).decisions
  unfolding decide
  decide_reached e =
      ground (arith, error_ne_running, running_ne_waiting, eq_iff input.decision "rejected")

  decide_missing :
      IsWaiting (decide now input st)
      → count is_approved (decide now input st).decisions < required_approvals st.policy
  unfolding decide
  decide_missing e =
      ground (arith, error_ne_waiting, running_ne_waiting, eq_iff input.decision "rejected")

  decide_accepts :
      ((decide now input st).status ≡ "running") ⊎ IsWaiting (decide now input st)
      → input.decision ≢ "rejected"
  unfolding decide
  decide_accepts e d =
      ground (arith, error_ne_waiting, error_ne_running, (eq_iff input.decision "rejected").1 d)

  -- A first decision by an approver whom the policy may count keeps a waiting step quorate.
  pub decide-IsQuorate :
      (input.decision ≡ "approved" → MayCount st input.approver)
      → IsQuorate st
      → IsQuorate (decide now input st)
  unfolding decide
  decide-IsQuorate may q = record {
    distinct = Distinct-insert input.approver (recorded now input) st.decisions q.distinct;
    filed =
        AllEntries-insert (λ k d. d.approver ≡ k) input.approver (recorded now input) st.decisions
          q.filed refl;
    reached = decide_reached;
    missing = decide_missing;
    unopposed = λ e.
        AllEntries-insert (λ k d. ¬ IsRejection d) input.approver (recorded now input) st.decisions
          (q.unopposed (inr waits)) (decide_accepts e);
    eligible =
        AllEntries-insert (λ k d. d.decision ≡ "approved" → MayCount st k) input.approver
          (recorded now input) st.decisions q.eligible may;
  }
