-- ===== src/Intake/Decisions/Reuse.antt =====
-- What the upsert on the idempotency key does to the decision that has the key.
use mathlib.Core.Path.{ap, ◌∙◌}
use release_engine.Prelude.{
  ℕ, String, ◌≡◌, ◌≢◌, ◌⊎◌, ◌==◌, inl, inr, refl, true, some, none, List, [], ◌∷◌, ok, arith,
  Option-cases, eq_iff, any, All, map, length, if◌then◌else◌,
}
use release_engine.Approval.State.{DecisionOutput}
use release_engine.Jobs.Table.{StepRow}
use release_engine.StepApi.Steps.{Run}
use release_engine.StepApi.Approvals.{Decision, own_step, newest, poll}
use release_engine.Intake.Decisions.{
  Libraries, Gate, DecisionFaults, Caller, DecisionRequest, insert_decision, submit_gate_decision,
}
use release_engine.Intake.Decisions.Policy.{submit_gate_decision-IsAccepted}

abbrev moved : String → String → Decision → Decision
moved key job_id d = if d.idempotency_key == key then record d { job_id = job_id } else d

insert_moves :
    (lib : Libraries) (new : Decision) (ds added : List Decision)
    → any (λ d. d.idempotency_key == new.idempotency_key) ds ≡ true
    → insert_decision lib new ds ≡ some added
    → added ≡ map (moved new.idempotency_key new.job_id) ds
unfolding insert_decision
insert_moves lib new ds added taken h = ground (arith, taken, h)

length-moved :
    (key job_id : String) (ds : List Decision) → length (map (moved key job_id) ds) ≡ length ds
length-moved key job_id [] = refl
length-moved key job_id (d ∷ ds) = ground (arith, length-moved key job_id ds)

newest-moved :
    (run : Run) (n : ℕ) (key job_id : String) (ds : List Decision)
    → job_id ≢ run.job_id
    → All (λ d. (d.idempotency_key ≡ key) ⊎ (d.job_id ≢ run.job_id)) ds
    → newest run n (map (moved key job_id) ds) ≡ none
unfolding newest
newest-moved run n key job_id [] other h = refl
newest-moved run n key job_id (d ∷ ds) other (here, there) = ground (
  arith,
  other,
  here,
  newest-moved run n key job_id ds other there,
  eq_iff d.idempotency_key key,
  eq_iff d.job_id run.job_id,
  eq_iff job_id run.job_id,
)

poll-none :
    (run : Run) (key : String) (rows : List StepRow) (ds : List Decision)
    → ((n : ℕ) → newest run n ds ≡ none)
    → poll run key rows ds ≡ none
unfolding poll
poll-none run key rows ds h = elim (Option-cases (own_step run key rows)) [
  | inl e ↦ rw (e, poll) refl
  | inr (n, e) ↦ rw (e, h n, poll) refl
]

module _ (lib : Libraries) (faults : DecisionFaults) (now : ℕ) (job_id step_id : String)
    (c : Caller) (request : DecisionRequest) where
  -- Where the idempotency key of a decision on one job is used again for a decision on another, and
  -- the gate answers the second with 200, no decision is added: a run of the first job whose
  -- decisions all have this key finds none of them any more, at any step.
  pub submit_gate_decision_moves :
      (run : Run) (key : String) (rows : List StepRow) (g : Gate) (out : DecisionOutput)
      → (submit_gate_decision lib faults now job_id step_id c request g).1 ≡ ok out
      → lib.to_uuid job_id ≢ some run.job_id
      → any (λ d. d.idempotency_key == out.idempotency_key) g.decisions ≡ true
      → All (λ d. (d.idempotency_key ≡ out.idempotency_key) ⊎ (d.job_id ≢ run.job_id)) g.decisions
      → let g' = (submit_gate_decision lib faults now job_id step_id c request g).0 in
        (length g'.decisions ≡ length g.decisions) × (poll run key rows g'.decisions ≡ none)
  submit_gate_decision_moves run key rows g out h other taken own =
      let a = submit_gate_decision-IsAccepted lib faults now job_id step_id c request g out h in
      let apart : a.uuid ≢ run.job_id = λ e. other (a.is_job ∙ ap some e) in
      let left : (submit_gate_decision lib faults now job_id step_id c request g).0.decisions
          ≡ map (moved out.idempotency_key a.uuid) g.decisions =
        ap (λ x. x.decisions) a.left ∙ insert_moves lib _ g.decisions a.added taken a.inserted in
      rw left (
        length-moved out.idempotency_key a.uuid g.decisions,
        poll-none run key rows _
            (λ n. newest-moved run n out.idempotency_key a.uuid g.decisions apart own),
      )
