-- ===== src/Approval/Tests.antt =====
-- The service at concrete calls: a demo step that two release managers approve.
use mathlib.Core.List.{Memᴰ}
use release_engine.Prelude.{
  ◌*◌, ◌+◌, ◌<>◌, join, insert, ℕ, String, ◌≡◌, ◌≢◌, ◌↔◌, ◌<◌, refl, inr, true, none, some, [], ◌∷◌,
  ◌==◌, ltb, if◌then◌else◌, lookup, ok, err, arith, eq_iff,
}
use release_engine.Approval.State.{Runtime, Service, DecisionInput, DecisionOutput}
use release_engine.Approval.Policy.{
  parse_float, contains, over_budget, role_refused, evaluate_approval,
}
use release_engine.Approval.Policy.Laws.{IsAuthorised, evaluate_approval_iff}
use release_engine.Approval.Service.{with_defaults, demo_step, seed_step, step_map_key, hour}
use release_engine.Approval.Submit.{
  accept, submit_fresh, idempotency_conflict, policy_input, decision_output, decide,
  submit_decision, payload_hash,
}
use release_engine.Approval.Tick.{escalates, tick_waiting, tick_steps, ticked, tick_approvals}
use release_engine.Approval.Tick.Laws.{tick_approvals_prompt}
use release_engine.Approval.Queries.{pending_job, list_pending_jobs}
use release_engine.Approval.Queries.Laws.{IsPending, list_pending_jobs_iff}
use release_engine.Approval.History.{seeds, submits, ticks, drains, run}
use release_engine.Approval.History.Invariant.{AllQuorate, run-AllQuorate}
use release_engine.Approval.History.Idempotency.{
  replay_of, submit_replay, submit_conflict, submit_replay_shift,
}

-- Floats as naturals, of which "10" and "20" are read.
abbrev rt : Runtime
rt = record {
  Float = ℕ;
  parse_float = λ s. if s == "10" then some 10 else if s == "20" then some 20 else none;
  exceeds = λ a b. ltb b a;
  equal_fold = λ a b. a == b;
  escalation_delay = λ n. n;
}

abbrev empty : Service
empty = record {
  steps = [];
  idem = [];
  log = record { events = []; outbox = none; metrics = none };
  default_ttl = 172_800_000_000_000;
}

abbrev seeded : Service
seeded = seed_step 5 (demo_step 5) empty

abbrev vote : String → String → DecisionInput
vote justification approver = record {
  job_id = "job-123";
  step_id = "step-456";
  decision = "approved";
  justification = justification;
  idempotency_key = "k1";
  approver = approver;
  approver_role = "team-lead";
  approver_tenant_id = "acme-prod";
}

abbrev voted : DecisionInput → DecisionOutput
voted input = decision_output 6 input (decide 6 input (demo_step 5))

run-AllQuorate_example :
    AllQuorate (run rt empty (seeds 5 (demo_step 5) ∷ submits 6 (vote "fine" "ann") ∷ ticks 7 ∷ []))
run-AllQuorate_example =
    run-AllQuorate rt empty (seeds 5 (demo_step 5) ∷ submits 6 (vote "fine" "ann") ∷ ticks 7 ∷ [])
      ((refl, inr refl), (tt, (tt, tt))) tt

vote_accepted : (submit_decision rt 6 (vote "fine" "ann") seeded).1 ≡ ok (voted (vote "fine" "ann"))
unfolding submit_decision seed_step with_defaults lookup insert submit_fresh evaluate_approval
    role_refused over_budget accept decide contains parse_float
vote_accepted = refl

submit_replay_example :
    submit_decision rt 9
      (vote "fine" "ann")
      (run rt (submit_decision rt 6 (vote "fine" "ann") seeded).0 (ticks 8 ∷ []))
    ≡ (
      run rt (submit_decision rt 6 (vote "fine" "ann") seeded).0 (ticks 8 ∷ []),
      ok (replay_of (voted (vote "fine" "ann"))),
    )
submit_replay_example =
    submit_replay rt 6 9 (vote "fine" "ann") seeded (voted (vote "fine" "ann")) (ticks 8 ∷ [])
      vote_accepted

hash_differs : payload_hash (vote "fine" "ann") ≢ payload_hash (vote "fine" "bob")
unfolding join
hash_differs =
    ground (arith, eq_iff "job-123|step-456|approved|fine|ann" "job-123|step-456|approved|fine|bob")

submit_conflict_example :
    submit_decision rt 9
      (vote "fine" "bob")
      (run rt (submit_decision rt 6 (vote "fine" "ann") seeded).0 [])
    ≡ (run rt (submit_decision rt 6 (vote "fine" "ann") seeded).0 [], err idempotency_conflict)
unfolding submit_decision seed_step with_defaults lookup insert submit_fresh evaluate_approval
    role_refused over_budget accept decide contains parse_float run
submit_conflict_example =
    submit_conflict rt 6 9 (vote "fine" "ann") (vote "fine" "bob") seeded
      (voted (vote "fine" "ann")) [] vote_accepted refl (λ e. hash_differs e)
      (decide 6 (vote "fine" "ann") (demo_step 5), refl)

shifted_accepted :
    (submit_decision rt 6 (vote "fine" ("eve" <> ("|" <> "ann"))) seeded).1
    ≡ ok (voted (vote "fine" ("eve" <> ("|" <> "ann"))))
unfolding submit_decision seed_step with_defaults lookup insert submit_fresh evaluate_approval
    role_refused over_budget accept decide contains parse_float
shifted_accepted = refl

submit_replay_shift_example :
    submit_decision rt 9
      (vote ("fine" <> ("|" <> "eve")) "ann")
      (run rt (submit_decision rt 6 (vote "fine" ("eve" <> ("|" <> "ann"))) seeded).0 (drains ∷ []))
    ≡ (
      run rt (submit_decision rt 6 (vote "fine" ("eve" <> ("|" <> "ann"))) seeded).0 (drains ∷ []),
      ok (replay_of (voted (vote "fine" ("eve" <> ("|" <> "ann"))))),
    )
submit_replay_shift_example =
    submit_replay_shift rt 6 9 (vote "" "") "fine" "eve" "ann" seeded
      (voted (vote "fine" ("eve" <> ("|" <> "ann")))) (drains ∷ []) shifted_accepted

evaluate_approval_iff_example :
    ((evaluate_approval rt (policy_input (vote "fine" "ann") (demo_step 5))).allowed ≡ true)
    ↔ IsAuthorised rt (policy_input (vote "fine" "ann") (demo_step 5))
evaluate_approval_iff_example =
    evaluate_approval_iff rt (policy_input (vote "fine" "ann") (demo_step 5))

tick_approvals_prompt_example : (e : ℕ) × (some (5 + 48 * hour) ≡ some e) × (9 < e)
unfolding submit_decision seed_step with_defaults lookup insert submit_fresh evaluate_approval
    role_refused over_budget accept decide contains parse_float tick_approvals ticked tick_steps
    tick_waiting escalates
tick_approvals_prompt_example =
    tick_approvals_prompt rt 9 seeded (step_map_key "job-123" "step-456") (demo_step 5) refl refl

list_pending_jobs_iff_example :
    Memᴰ (pending_job (demo_step 5)) (list_pending_jobs "acme-prod" "team-lead" seeded)
    ↔ IsPending "acme-prod" "team-lead" seeded.steps (pending_job (demo_step 5))
list_pending_jobs_iff_example =
    list_pending_jobs_iff "acme-prod" "team-lead" seeded (pending_job (demo_step 5))
