-- ===== src/Intake/Decisions/Tests.antt =====
-- A team lead decides on the gate of a run, and then on that of another job under the same key.
use release_engine.Prelude.{
  ◌≢◌, Option, String, ◌≡◌, ◌==◌, refl, inl, false, none, some, List, [], ◌∷◌, arith, eq_iff,
  lookup, length, trim_space, if◌then◌else◌,
}
use release_engine.Approval.State.{Runtime, DecisionOutput}
use release_engine.Approval.Policy.{evaluate_approval, parse_float, over_budget, role_refused}
use release_engine.Jobs.Table.{Job, StepRow, queued, waiting_approval}
use release_engine.StepApi.Steps.{Run, park, persist, upsert_step, is_same_step}
use release_engine.StepApi.Approvals.{poll}
use release_engine.Intake.Decisions.{
  Libraries, Gate, no_decision_faults, Caller, DecisionRequest, submit_gate_decision, decide_row,
  decision_key, gate_row, find_step, insert_decision, gate_output,
}
use release_engine.Intake.Decisions.Polls.{submit_gate_decision-poll}
use release_engine.Intake.Decisions.Reuse.{submit_gate_decision_moves}

abbrev runtime : Runtime
runtime = record {
  Float = Unit;
  parse_float = λ raw. none;
  exceeds = λ a b. false;
  equal_fold = λ a b. a == b;
  escalation_delay = λ total. total;
}

-- Steps 7 and 8 are named by their digits.
abbrev lib : Libraries
lib = record {
  runtime = runtime;
  to_lower = λ text. text;
  sha256_hex = λ text. text;
  to_uuid = λ text. some text;
  to_bigint = λ text. if text == "7" then some 7 else some 8;
}

abbrev job_of : String → Job
job_of id = record {
  id = id;
  tenant_id = "t1";
  path_key = "infra";
  idempotency_key = "k1";
  params_json = "";
  schedule = none;
  state = queued;
  attempt = 1;
  max_attempts = 3;
  backoff_policy = record { base_seconds = none; max_seconds = none };
  owner_id = none;
  run_id = "r1";
  lease_expires_at = none;
  next_run_at = some 5;
  accepted_at = 1;
  last_error_code = none;
  last_error_message = none;
  created_by = some "bob";
  created_at = 1;
  started_at = none;
  finished_at = none;
  updated_at = 1;
}

abbrev first_run : Run
first_run = record { job_id = "j1"; run_id = "r1"; attempt = 1 }

abbrev other_row : StepRow
other_row = record {
  id = 8;
  job_id = "j2";
  run_id = "r2";
  attempt = 1;
  step_key = "gate";
  status = waiting_approval;
  error_code = none;
  error_message = none;
}

abbrev jobs : List (String × Job)
jobs = ("j1", job_of "j1") ∷ ("j2", job_of "j2") ∷ []

abbrev waiting : Gate
waiting = record {
  jobs = jobs;
  steps = (park false false 7 first_run "gate" (other_row ∷ [])).0;
  decisions = [];
}

abbrev ann : Caller
ann = record {
  subject = "ann";
  role = "team-lead";
  tenant_id = "t1";
  header_approver = "";
  header_role = "";
  header_tenant = "";
  header_run_id = "";
}

abbrev approval : DecisionRequest
approval = record {
  decision = "approved";
  justification = "fine";
  idempotency_key = "d1";
  run_id = "";
}

abbrev out : DecisionOutput
out = gate_output lib 9 "j1" "7" approval "d1"

submit_gate_decision-poll_example :
    poll first_run "gate" waiting.steps
      (submit_gate_decision lib no_decision_faults 9 "j1" "7" ann approval waiting).0.decisions
    ≡ some
        (record { decision = "approved"; approver = "ann"; justification = "fine"; decided_at = 9 })
unfolding submit_gate_decision decide_row park persist is_same_step trim_space gate_row find_step
    upsert_step lookup evaluate_approval role_refused over_budget parse_float insert_decision
    decision_key
submit_gate_decision-poll_example =
    submit_gate_decision-poll lib no_decision_faults 7 9 first_run "gate" "7" ann approval
      (other_row ∷ []) waiting out (refl, tt) refl tt refl refl refl refl refl tt

-- The gate after the first decision, and the same key on the other job.
abbrev decided : Gate
decided = record waiting {
  decisions =
      record {
        job_id = "j1";
        step_id = 7;
        run_id = "r1";
        decision = "approved";
        approver = "ann";
        justification = some "fine";
        idempotency_key = "d1";
        created_at = 9;
      }
      ∷ [];
}

submit_gate_decision_moves_example :
    let g' = (submit_gate_decision lib no_decision_faults 12 "j2" "8" ann approval decided).0 in
    (length g'.decisions ≡ length decided.decisions)
    × (poll first_run "gate" waiting.steps g'.decisions ≡ none)
unfolding submit_gate_decision decide_row park persist is_same_step trim_space gate_row find_step
    upsert_step lookup evaluate_approval role_refused over_budget parse_float insert_decision
    decision_key
submit_gate_decision_moves_example =
    submit_gate_decision_moves lib no_decision_faults 12 "j2" "8" ann approval first_run "gate"
      waiting.steps decided (gate_output lib 12 "j2" "8" approval "d1") refl (λ e. other e) refl
      (inl refl, tt)
  where
    other : ◌≢◌ {A = Option String} (some "j2") (some "j1")
    other e = ground (arith, e, eq_iff "j2" "j1")
