-- ===== src/Approval/Submit/Cases.antt =====
-- The three ways in which `SubmitDecision` ends.
use release_engine.Prelude.{
  ℕ, String, ◌≡◌, refl, ap, inl, inr, true, none, some, ◌==◌, eq_iff, Bool-cases, Option-cases,
  lookup, Result, ok, err,
}
use release_engine.Approval.State.{
  Runtime, Step, DecisionInput, DecisionOutput, IdempotencyRecord, Service, waiting_approval,
  IsWaiting,
}
use release_engine.Approval.Policy.{evaluate_approval}
use release_engine.Approval.Service.{step_map_key}
use release_engine.Approval.Submit.{
  SubmitError, not_waiting, decision_conflict, step_not_found, idempotency_conflict, payload_hash,
  policy_input, accept, submit_fresh, submit_decision,
}

abbrev pub key_of : DecisionInput → String
key_of input = step_map_key input.job_id input.step_id

pub data Submission (rt : Runtime) (now : ℕ) (input : DecisionInput) (s : Service)
    (r : Service × Result SubmitError DecisionOutput) : Type 0 where
  -- An error, and nothing changes.
  refused : (e : SubmitError) → r ≡ (s, err e) → Submission rt now input s r
  -- The output on record for the key, and nothing changes.
  replayed :
      (st : Step) (old : IdempotencyRecord)
      → lookup (key_of input) s.steps ≡ some st
      → lookup input.idempotency_key s.idem ≡ some old
      → old.payload_hash ≡ payload_hash input
      → r ≡ (s, ok (record (old.output) { idempotent_replay = true }))
      → Submission rt now input s r
  -- A new decision on a waiting step, by an approver without one whom the policy permits.
  accepted :
      (st : Step)
      → lookup (key_of input) s.steps ≡ some st
      → lookup input.idempotency_key s.idem ≡ none
      → IsWaiting st
      → lookup input.approver st.decisions ≡ none
      → (evaluate_approval rt (policy_input input st)).allowed ≡ true
      → r ≡ ((accept now input st s).0, ok (accept now input st s).1)
      → Submission rt now input s r

module _ (rt : Runtime) (now : ℕ) (input : DecisionInput) (s : Service) where
  fresh_cases :
      (st : Step)
      → lookup (key_of input) s.steps ≡ some st
      → lookup input.idempotency_key s.idem ≡ none
      → Submission rt now input s (submit_fresh rt now input st s)
  unfolding submit_fresh
  fresh_cases st found new = elim (Bool-cases (st.status == waiting_approval)) [
    | inr w ↦ rw w (refused not_waiting refl)
    | inl w ↦ elim (Option-cases (lookup input.approver st.decisions)) [
      | inr (d, voted) ↦ rw (w, voted) (refused decision_conflict refl)
      | inl first ↦ elim (Bool-cases (evaluate_approval rt (policy_input input st)).allowed) [
        | inr no_leave ↦ rw (w, first, no_leave) (refused _ refl)
        | inl leave ↦
            rw (w, first, leave)
              (accepted st found new ((eq_iff st.status waiting_approval).0 w) first leave refl)
      ]
    ]
  ]

  -- Every submission is refused, replayed or accepted.
  pub submit_cases : Submission rt now input s (submit_decision rt now input s)
  unfolding submit_decision
  submit_cases = elim (Option-cases (lookup (key_of input) s.steps)) [
    | inl missing ↦ rw (missing, submit_decision) (refused step_not_found refl)
    | inr (st, found) ↦ elim (Option-cases (lookup input.idempotency_key s.idem)) [
      | inl new ↦ rw (found, new, submit_decision) (fresh_cases st found new)
      | inr (old, known) ↦ elim (Bool-cases (old.payload_hash == payload_hash input)) [
        | inr differs ↦
            rw (found, known, differs, submit_decision) (refused idempotency_conflict refl)
        | inl same ↦
            rw (found, known, same, submit_decision)
              (replayed st old found known ((eq_iff old.payload_hash (payload_hash input)).0 same)
                refl)
      ]
    ]
  ]

  -- A submission that returns an error leaves the service as it was.
  pub submit_error_unchanged :
      (e : SubmitError)
      → (submit_decision rt now input s).1 ≡ err e
      → (submit_decision rt now input s).0 ≡ s
  submit_error_unchanged e failed = elim submit_cases [
    | refused e' same ↦ ap (λ (r : Service × Result SubmitError DecisionOutput). r.0) same
    | replayed st old found known hash same ↦
        ap (λ (r : Service × Result SubmitError DecisionOutput). r.0) same
    | accepted st found new w first leave same ↦ cc
  ]
