-- ===== src/Intake/Decisions/Polls.antt =====
-- From the run that parks a step, through the gate that takes the decision, to the run's next poll.
use mathlib.Core.Path.{ap, ◌∙◌}
use release_engine.Prelude.{
  ℕ, String, ◌≡◌, ◌<◌, ◌++◌, ◌==◌, inl, inr, refl, false, some, none, List, [], ◌∷◌, ok, arith,
  Bool-cases, eq_iff, any, All, eqb, ok?,
}
use release_engine.Approval.State.{DecisionOutput}
use release_engine.Jobs.Table.{Job, StepRow, waiting_approval}
use release_engine.StepApi.Steps.{Run, new_row, upsert_step, park, persist}
use release_engine.StepApi.Approvals.{Decision, own_step, newest, poll}
use release_engine.StepApi.Approvals.Laws.{IsAbsent, own_step-upsert, is_same_new}
use release_engine.Intake.Decisions.{
  Libraries, Gate, DecisionFaults, Caller, DecisionRequest, find_step, gate_row, insert_decision,
  new_decision, submit_gate_decision, normal_decision, approver_of,
}
use release_engine.Intake.Decisions.Policy.{submit_gate_decision-IsAccepted}

module _ (lib : Libraries) where
  find_step-upsert :
      (run : Run) (key : String) (new : StepRow) (set : StepRow → StepRow) (rows : List StepRow)
      → IsAbsent run key rows
      → new.job_id ≡ run.job_id
      → any (λ r. eqb r.id new.id) rows ≡ false
      → find_step lib run.job_id new.id (upsert_step run key new set rows) ≡ some new
  unfolding find_step upsert_step
  find_step-upsert run key new set [] h same free =
      ground (arith, same, eq_iff new.job_id run.job_id)
  find_step-upsert run key new set (r ∷ rs) (here, there) same free =
      ground (arith, here, free, find_step-upsert run key new set rs there same (ground arith))

  gate_row_of :
      (uuid : String) (id : ℕ) (g : Gate) (r new : StepRow) (j : Job)
      → gate_row lib uuid id g ≡ some (r, j)
      → find_step lib uuid id g.steps ≡ some new
      → r ≡ new
  unfolding gate_row
  gate_row_of uuid id g r new j h found = ground (arith, h, found)

  insert_new :
      (new : Decision) (ds added : List Decision)
      → any (λ d. d.idempotency_key == new.idempotency_key) ds ≡ false
      → insert_decision lib new ds ≡ some added
      → added ≡ ds ++ new ∷ []
  unfolding insert_decision
  insert_new new ds added fresh h = ground (arith, fresh, h)

newest-append :
    (run : Run) (id : ℕ) (ds : List Decision) (new : Decision)
    → new.job_id ≡ run.job_id
    → new.run_id ≡ run.run_id
    → new.step_id ≡ id
    → All (λ d. d.created_at < new.created_at) ds
    → newest run id (ds ++ new ∷ []) ≡ some new
unfolding newest
newest-append run id [] new a b s h =
    ground (arith, a, b, s, eq_iff new.job_id run.job_id, eq_iff new.run_id run.run_id)
newest-append run id (d ∷ ds) new a b s (here, there) =
    ground (arith, here, newest-append run id ds new a b s there)

poll_of :
    (run : Run) (key : String) (rows : List StepRow) (ds : List Decision) (n : ℕ) (d : Decision)
    → own_step run key rows ≡ some n
    → newest run n ds ≡ some d
    → poll run key rows ds
      ≡ some (record {
        decision = d.decision;
        approver = d.approver;
        justification = elim d.justification [ none ↦ "" | some j ↦ j ];
        decided_at = d.created_at;
      })
unfolding poll
poll_of run key rows ds n d own hit = rw (own, hit, poll) refl

module _ (lib : Libraries) (faults : DecisionFaults) (fresh now : ℕ) (run : Run)
    (key : String) where
  -- A run parks a step that has no row yet, and the gate answers a decision on that step with 200,
  -- under an idempotency key that no decision has, later than the decisions that there are: the
  -- run's next poll returns this decision, with its approver, its justification and its instant.
  pub submit_gate_decision-poll :
      (step_id : String) (c : Caller) (request : DecisionRequest) (rows : List StepRow) (g : Gate)
      (out : DecisionOutput)
      → IsAbsent run key rows
      → any (λ r. eqb r.id fresh) rows ≡ false
      → ok? (park false false fresh run key rows).1
      → g.steps ≡ (park false false fresh run key rows).0
      → lib.to_uuid run.job_id ≡ some run.job_id
      → lib.to_bigint step_id ≡ some fresh
      → (submit_gate_decision lib faults now run.job_id step_id c request g).1 ≡ ok out
      → any (λ d. d.idempotency_key == out.idempotency_key) g.decisions ≡ false
      → All (λ d. d.created_at < now) g.decisions
      → poll run key g.steps
          (submit_gate_decision lib faults now run.job_id step_id c request g).0.decisions
        ≡ some (record {
          decision = normal_decision lib request;
          approver = approver_of lib c;
          justification = request.justification;
          decided_at = now;
        })
  unfolding park persist
  submit_gate_decision-poll step_id c request rows g out absent free parked stored uuid step h
        unused later =
      let new = new_row fresh run key waiting_approval none none in
      let set : StepRow → StepRow = λ r. record r { status = waiting_approval } in
      let a = submit_gate_decision-IsAccepted lib faults now run.job_id step_id c request g out h in
      elim (Bool-cases (key == "")) [
        | inl e ↦ absurd (rw e at parked)
        | inr e ↦
            let steps : g.steps ≡ upsert_step run key new set rows = rw e at stored in
            let u : a.uuid ≡ run.job_id = cc in
            let i : a.id ≡ fresh = cc in
            let found : find_step lib run.job_id fresh g.steps ≡ some new =
              rw steps (find_step-upsert lib run key new set rows absent refl free) in
            let row : a.row ≡ new =
              gate_row_of lib run.job_id fresh g a.row new a.job (rw (u, i) at a.read) found in
            let d = new_decision lib now run.job_id fresh c request out.idempotency_key new in
            let added : a.added ≡ g.decisions ++ d ∷ [] =
              insert_new lib d g.decisions a.added unused (rw (u, i, row) at a.inserted) in
            let own : own_step run key g.steps ≡ some fresh =
              rw steps
                (own_step-upsert run key new set rows (is_same_new fresh run key) refl absent) in
            let hit = newest-append run fresh g.decisions d refl refl refl later in
            let ds : (submit_gate_decision lib faults now run.job_id step_id c request
                  g).0.decisions
                ≡ g.decisions ++ d ∷ [] =
              ap (λ x. x.decisions) a.left ∙ added in
            poll_of run key g.steps _ fresh d own (rw ds hit)
      ]
