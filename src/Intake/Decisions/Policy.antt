-- ===== src/Intake/Decisions/Policy.antt =====
-- A decision that the gate accepts is of a parked step, by an approver whom the gate's policy authorises.
use mathlib.Core.Path.{subst, ap}
use release_engine.Prelude.{
  ℕ, String, ◌≡◌, ◌==◌, ◌||◌, inl, inr, refl, true, not, some, List, ok, Bool-cases, Option-cases,
}
use release_engine.Approval.State.{DecisionOutput}
use release_engine.Approval.Policy.{evaluate_approval}
use release_engine.Jobs.Table.{Job, StepRow, is_parked}
use release_engine.StepApi.Approvals.{Decision}
use release_engine.Intake.Decisions.{
  is_step, Libraries, Gate, DecisionFaults, Caller, DecisionRequest, or_else, normal_decision,
  gate_row, gate_policy, insert_decision, new_decision, gate_output, decide_row,
  submit_gate_decision, decision_key, derive_decision_idempotency_key, approver_of,
}

module _ (lib : Libraries) (faults : DecisionFaults) (now : ℕ) (job_id step_id : String)
    (c : Caller) (request : DecisionRequest) where
  -- What an answer of 200 went through.
  pub record IsAccepted (g : Gate) (out : DecisionOutput) : Type 0 where
    pub uuid : String
    pub id : ℕ
    pub row : StepRow
    pub job : Job
    pub added : List Decision
    pub is_job : lib.to_uuid job_id ≡ some uuid
    pub is_step : lib.to_bigint step_id ≡ some id
    pub read : gate_row lib uuid id g ≡ some (row, job)
    pub parked : is_parked row.status ≡ true
    pub permitted : (evaluate_approval lib.runtime (gate_policy lib c step_id job)).allowed ≡ true
    pub inserted :
        insert_decision lib
          (new_decision lib now uuid id c request out.idempotency_key row)
          g.decisions
        ≡ some added
    pub left :
        (submit_gate_decision lib faults now job_id step_id c request g).0
        ≡ record g { decisions = added }

  decide_row-accepted :
      (uuid : String) (id : ℕ) (r : StepRow) (j : Job) (g : Gate) (out : DecisionOutput)
      → (decide_row lib faults now job_id step_id uuid id c request (r, j) g).1 ≡ ok out
      → (is_parked r.status ≡ true)
        × ((evaluate_approval lib.runtime (gate_policy lib c step_id j)).allowed ≡ true)
        × (ds : List Decision) × (insert_decision lib
              (new_decision lib now uuid id c request out.idempotency_key r)
              g.decisions
            ≡ some ds)
        × ((decide_row lib faults now job_id step_id uuid id c request (r, j) g).0
            ≡ record g { decisions = ds })
  unfolding decide_row
  decide_row-accepted uuid id r j g out h =
      let key =
        or_else (decision_key lib step_id c request)
          (derive_decision_idempotency_key lib (approver_of lib c) step_id r.run_id) in
      elim (Bool-cases (is_parked r.status)) [
        | inr a ↦ absurd (let stuck = rw a at h in cc)
        | inl a ↦
            elim (Bool-cases
              (evaluate_approval lib.runtime (gate_policy lib c step_id j)).allowed) [
                | inr b ↦ absurd (let stuck = rw (a, b) at h in cc)
                | inl b ↦ elim (Bool-cases faults.select_id) [
                  | inl d ↦ absurd (let stuck = rw (a, b, d) at h in cc)
                  | inr d ↦ elim (Bool-cases faults.insert) [
                    | inl e ↦ absurd (let stuck = rw (a, b, d, e) at h in cc)
                    | inr e ↦
                        elim (Option-cases (
                          insert_decision lib (new_decision lib now uuid id c request key r)
                            g.decisions)) [
                              | inl f ↦
                                  absurd (let stuck = rw (a, b, d, e, f, decide_row) at h in cc)
                              | inr (ds, f) ↦
                                  let made = rw (a, b, d, e, f, decide_row) at h in
                                  let said : gate_output lib now job_id step_id request key ≡ out =
                                    cc in
                                  (
                                    a,
                                    b,
                                    ds,
                                    subst
                                        (λ k.
                                          insert_decision lib
                                            (new_decision lib now uuid id c request k r) g.decisions
                                          ≡ some ds)
                                        (ap (λ o. o.idempotency_key) said) f,
                                    rw (a, b, d, e, f, decide_row) refl,
                                  )
                            ]
                  ]
                ]
              ]
      ]

  pub submit_gate_decision-IsAccepted :
      (g : Gate) (out : DecisionOutput)
      → (submit_gate_decision lib faults now job_id step_id c request g).1 ≡ ok out
      → IsAccepted g out
  unfolding submit_gate_decision
  submit_gate_decision-IsAccepted g out h =
      let word = normal_decision lib request in
      elim (Bool-cases (job_id == "" || step_id == "")) [
        | inl a ↦ absurd (let stuck = rw a at h in cc)
        | inr a ↦ elim (Bool-cases (not (word == "approved" || word == "rejected"))) [
          | inl b ↦ absurd (let stuck = rw (a, b) at h in cc)
          | inr b ↦ elim (Bool-cases (faults.acquire || faults.select)) [
            | inl d ↦ absurd (let stuck = rw (a, b, d) at h in cc)
            | inr d ↦ elim (Option-cases (lib.to_uuid job_id)) [
              | inl e ↦ absurd (let stuck = rw (a, b, d, e, submit_gate_decision) at h in cc)
              | inr (uuid, e) ↦ elim (Option-cases (lib.to_bigint step_id)) [
                | inl f ↦ absurd (let stuck = rw (a, b, d, e, f, submit_gate_decision) at h in cc)
                | inr (id, f) ↦ elim (Option-cases (gate_row lib uuid id g)) [
                  | inl k ↦
                      absurd (let stuck = rw (a, b, d, e, f, k, submit_gate_decision) at h in cc)
                  | inr ((r, j), k) ↦
                      let (parked, permitted, ds, inserted, left) =
                        decide_row-accepted uuid id r j g out
                          (rw (a, b, d, e, f, k, submit_gate_decision) at h) in
                      let after : (submit_gate_decision lib faults now job_id step_id c request g).0
                          ≡ record g { decisions = ds } =
                        rw (a, b, d, e, f, k, submit_gate_decision) left in
                      record {
                        uuid = uuid;
                        id = id;
                        row = r;
                        job = j;
                        added = ds;
                        is_job = e;
                        is_step = f;
                        read = k;
                        parked = parked;
                        permitted = permitted;
                        inserted = inserted;
                        left = after;
                      }
                ]
              ]
            ]
          ]
        ]
      ]
