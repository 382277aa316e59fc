-- ===== src/Approval/History/Invariant.antt =====
-- The quorum of every step, over the calls of the service.
use release_engine.Prelude.{
  ℕ, ◌<◌, ◌≡◌, ◌⊎◌, inl, inr, true, List, [], ◌∷◌, ◌==◌, eq_iff, arith, Bool-cases, Dict, count,
  AllEntries, AllEntries-insert, AllEntries-lookup, All,
}
use release_engine.Approval.State.{
  Runtime, Step, DecisionInput, Service, waiting_approval, IsWaiting,
}
use release_engine.Approval.Policy.{evaluate_approval}
use release_engine.Approval.Policy.Laws.{evaluate_approval_iff}
use release_engine.Approval.Service.{step_map_key, seed_step, with_defaults, drain_events}
use release_engine.Approval.Submit.{
  required_approvals, policy_input, decide, accept, submit_decision,
}
use release_engine.Approval.Submit.Cases.{refused, replayed, accepted, submit_cases}
use release_engine.Approval.Submit.Quorum.{IsQuorate, decide-IsQuorate, running_ne_waiting}
use release_engine.Approval.Tick.{tick_steps, tick_approvals}
use release_engine.Approval.Tick.Laws.{ticked-IsQuorate}
use release_engine.Approval.History.{
  attaches, Call, seeds, submits, ticks, drains, ensures, step, run,
}

abbrev pub AllQuorate : Service → Type 0
AllQuorate s = AllEntries (λ k st. IsQuorate st) s.steps

-- The call is one that the service makes in operation: a step is seeded as a request without
-- decisions, and `EnsureTerminal`, which waives the quorum, is not called.
abbrev pub IsRegular : Call → Type 0
IsRegular (seeds now st) = (st.decisions ≡ []) × ((st.status ≡ "") ⊎ IsWaiting st)
IsRegular (ensures job_id step_id) = ⊥
IsRegular _ = Unit

required_pos : (st : Step) → 0 < required_approvals st.policy
required_pos st = ground arith

seeded-IsQuorate :
    (now ttl : ℕ) (st : Step)
    → st.decisions ≡ []
    → (st.status ≡ "") ⊎ IsWaiting st
    → IsQuorate (with_defaults now ttl st)
unfolding with_defaults count
seeded-IsQuorate now ttl st fresh status = record {
  distinct = rw fresh tt;
  filed = rw fresh tt;
  reached = λ e. ground (arith, running_ne_waiting, status, eq_iff st.status "");
  missing = λ e. rw fresh (required_pos st);
  unopposed = λ e. rw fresh tt;
  eligible = rw fresh tt;
}

module _ (rt : Runtime) where
  accept-AllQuorate :
      (now : ℕ) (input : DecisionInput) (st : Step) (s : Service)
      → IsWaiting st
      → (evaluate_approval rt (policy_input input st)).allowed ≡ true
      → IsQuorate st
      → AllQuorate s
      → AllQuorate (accept now input st s).0
  unfolding accept
  accept-AllQuorate now input st s w allowed q all =
      let a = (evaluate_approval_iff rt (policy_input input st)).0 allowed in
      AllEntries-insert (λ k st. IsQuorate st) _ (decide now input st) s.steps all
        (decide-IsQuorate now input st w (λ _. (a.named, a.independent)) q)

  submit-AllQuorate :
      (now : ℕ) (input : DecisionInput) (s : Service)
      → AllQuorate s
      → AllQuorate (submit_decision rt now input s).0
  submit-AllQuorate now input s all = elim (submit_cases rt now input s) [
    | refused e same ↦ rw same all
    | replayed st old found known hash same ↦ rw same all
    | accepted st found new w first leave same ↦ rw same (
        accept-AllQuorate now input st s w leave
          (AllEntries-lookup (λ k st. IsQuorate st) _ st s.steps all found) all)
  ]

  tick-AllQuorate :
      (now ttl : ℕ) (m : Dict Step)
      → AllEntries (λ k st. IsQuorate st) m
      → AllEntries (λ k st. IsQuorate st) (tick_steps rt now ttl m)
  unfolding tick_steps
  tick-AllQuorate now ttl [] h = tt
  tick-AllQuorate now ttl ((k, st) ∷ m) (q, h) =
      (ticked-IsQuorate rt now ttl st q, tick-AllQuorate now ttl m h)

  seed-AllQuorate :
      (now : ℕ) (st : Step) (s : Service)
      → IsRegular (seeds now st)
      → AllQuorate s
      → AllQuorate (seed_step now st s)
  unfolding seed_step
  seed-AllQuorate now st s (fresh, status) all =
      let seeded = with_defaults now s.default_ttl st in
      let more =
        AllEntries-insert (λ k st. IsQuorate st) (step_map_key seeded.job_id seeded.step_id) seeded
          s.steps all (seeded-IsQuorate now s.default_ttl st fresh status) in
      elim (Bool-cases (seeded.status == waiting_approval)) [
        | inl w ↦ rw w more
        | inr w ↦ rw w more
      ]

  step-AllQuorate : (s : Service) (c : Call) → IsRegular c → AllQuorate s → AllQuorate (step rt s c)
  unfolding step tick_approvals drain_events
  step-AllQuorate s (seeds now st) r all = seed-AllQuorate now st s r all
  step-AllQuorate s (submits now input) r all = submit-AllQuorate now input s all
  step-AllQuorate s (ticks now) r all = tick-AllQuorate now s.default_ttl s.steps all
  step-AllQuorate s drains r all = all
  step-AllQuorate s (attaches recorder) r all = all
  step-AllQuorate s (ensures job_id step_id) r all = absurd r

  -- From a service whose steps are quorate, any calls that seed only requests without decisions
  -- and do not call EnsureTerminal lead to one whose steps are quorate: no approver decides
  -- twice, a step runs only with its quorum of approvals and no rejection and waits only without
  -- them, and each approval is by a named approver who is not the owner unless the policy lets
  -- owners approve.
  pub run-AllQuorate :
      (s : Service) (cs : List Call) → All IsRegular cs → AllQuorate s → AllQuorate (run rt s cs)
  unfolding run
  run-AllQuorate s [] r all = all
  run-AllQuorate s (c ∷ cs) (rc, rs) all =
      run-AllQuorate (step rt s c) cs rs (step-AllQuorate s c rc all)
