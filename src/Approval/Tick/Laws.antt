-- ===== src/Approval/Tick/Laws.antt =====
-- What a tick does to the steps that wait, and that ticking twice at one instant is ticking once.
use mathlib.Core.Option
use mathlib.Core.Path.{subst}
use release_engine.Prelude.{
  ℕ, String, ◌≤◌, ◌<◌, ◌≡◌, refl, ap, ◌∙◌, ◌≢◌, ◌↔◌, inl, inr, false, some, [], ◌∷◌, ◌==◌, eq_iff,
  arith, Bool-cases, Dict, lookup, insert, Distinct, Distinct-insert, AllEntries, AllEntries-insert,
  ltb, is_some, if◌then◌else◌,
}
use release_engine.Approval.State.{
  Runtime, Step, DecisionRecord, Log, Service, waiting_approval, IsWaiting,
}
use release_engine.Approval.Submit.Quorum.{IsQuorate, MayCount, error_ne_waiting, error_ne_running}
use release_engine.Approval.Tick.{
  timeout_record, expiry, escalates, tick_waiting, log_waiting, ticked, ticked_log, tick_steps,
  tick_log, tick_approvals,
}

expired_ne_approved : ◌≢◌ {A = String} "expired" "approved"
expired_ne_approved = ground (arith, eq_iff "expired" "approved")

module _ (rt : Runtime) (now ttl : ℕ) where
  -- The step is settled at `now`: it does not wait, or its expiry lies ahead and no escalation is due.
  pub IsSettled : Step → Type 0
  IsSettled st =
      IsWaiting st
      → (e : ℕ) × (st.expires_at ≡ some e) × (now < e) × (escalates rt now ttl e st ≡ false)

  ticked-IsSettled : (st : Step) → IsSettled (ticked rt now ttl st)
  unfolding IsSettled ticked tick_waiting escalates
  ticked-IsSettled st w = (
    expiry now ttl st,
    ground (arith, w, error_ne_waiting, eq_iff st.status waiting_approval),
    ground (arith, w, error_ne_waiting, eq_iff st.status waiting_approval),
    ground (arith, w, error_ne_waiting, eq_iff st.status waiting_approval),
  )

  ticked_of_IsSettled :
      (st : Step) (log : Log)
      → IsSettled st
      → (ticked rt now ttl st ≡ st) × (ticked_log rt now ttl st log ≡ log)
  unfolding IsSettled ticked ticked_log tick_waiting log_waiting
  ticked_of_IsSettled st log h = elim (Bool-cases (st.status == waiting_approval)) [
    | inl w ↦
        let (e, expires, ahead, calm) = h ((eq_iff st.status waiting_approval).0 w) in
        ground (arith, w, expires, ahead, calm)
    | inr w ↦ ground (arith, w)
  ]

  -- A waiting step ends in `error` exactly when its expiry has come.
  pub ticked_expires :
      (st : Step)
      → IsWaiting st
      → ((ticked rt now ttl st).status ≡ "error") ↔ (expiry now ttl st ≤ now)
  unfolding ticked tick_waiting
  ticked_expires st w = (
    λ e. ground (arith, error_ne_waiting, eq_iff st.status waiting_approval),
    λ e. ground (arith, error_ne_waiting, eq_iff st.status waiting_approval),
  )

  -- The decisions after the expiry: the timeout is filed unless a decision of that name is there.
  timed_out : Step → Dict DecisionRecord
  timed_out st =
      if is_some (lookup "system" st.decisions)
      then st.decisions
      else insert "system" (timeout_record now) st.decisions

  timed_out_all {κ} :
      (P : String → DecisionRecord → Type κ) (st : Step)
      → AllEntries P st.decisions
      → P "system" (timeout_record now)
      → AllEntries P (timed_out st)
  unfolding timed_out
  timed_out_all P st h p = elim (Bool-cases (is_some (lookup "system" st.decisions))) [
    | inl e ↦ rw e h
    | inr e ↦ rw e (AllEntries-insert P "system" (timeout_record now) st.decisions h p)
  ]

  timed_out-Distinct : (st : Step) → Distinct st.decisions → Distinct (timed_out st)
  unfolding timed_out
  timed_out-Distinct st h = elim (Bool-cases (is_some (lookup "system" st.decisions))) [
    | inl e ↦ rw e h
    | inr e ↦ rw e (Distinct-insert "system" (timeout_record now) st.decisions h)
  ]

  -- A tick keeps a step quorate.
  pub ticked-IsQuorate : (st : Step) → IsQuorate st → IsQuorate (ticked rt now ttl st)
  unfolding ticked tick_waiting timed_out
  ticked-IsQuorate st q = elim (Bool-cases (st.status == waiting_approval)) [
    | inr other ↦ rw other q
    | inl waits ↦ elim (Bool-cases (ltb now (expiry now ttl st))) [
      | inl ahead ↦
          rw (waits, ahead)
            (record {
              distinct = q.distinct;
              filed = q.filed;
              reached = q.reached;
              missing = q.missing;
              unopposed = q.unopposed;
              eligible = q.eligible;
            })
      | inr over ↦
          rw (waits, over)
            (record {
              distinct = timed_out-Distinct st q.distinct;
              filed = timed_out_all (λ k d. d.approver ≡ k) st q.filed refl;
              reached = λ e. absurd (error_ne_running e);
              missing = λ e. absurd (error_ne_waiting e);
              unopposed = λ e. ground (arith, error_ne_running, error_ne_waiting);
              eligible =
                  timed_out_all (λ k d. d.decision ≡ "approved" → MayCount st k) st q.eligible
                    (λ e. absurd (expired_ne_approved e));
            })
    ]
  ]

module _ (rt : Runtime) (now : ℕ) where
  tick_steps_again :
      (ttl : ℕ) (m : Dict Step) (log : Log)
      → let m' = tick_steps rt now ttl m in
        (tick_steps rt now ttl m' ≡ m') × (tick_log rt now ttl m' log ≡ log)
  unfolding tick_steps tick_log
  tick_steps_again ttl [] log = (refl, refl)
  tick_steps_again ttl ((k, st) ∷ m) log =
      let st' = ticked rt now ttl st in
      let (same, quiet) = ticked_of_IsSettled rt now ttl st' log (ticked-IsSettled rt now ttl st) in
      let (rest, calm) = tick_steps_again ttl m log in
      (rw (same, rest), ap (tick_log rt now ttl (tick_steps rt now ttl m)) quiet ∙ calm)

  -- A second tick at the same instant changes nothing: no step, no event, no metric.
  pub tick_approvals_idem :
      (s : Service) → tick_approvals rt now (tick_approvals rt now s) ≡ tick_approvals rt now s
  unfolding tick_approvals
  tick_approvals_idem s =
      let (steps, log) =
        tick_steps_again s.default_ttl s.steps (tick_log rt now s.default_ttl s.steps s.log) in
      rw (steps, log)

  pub lookup-tick_steps :
      (ttl : ℕ) (k : String) (m : Dict Step)
      → lookup k (tick_steps rt now ttl m) ≡ Option.map (ticked rt now ttl) (lookup k m)
  unfolding tick_steps lookup
  lookup-tick_steps ttl k [] = refl
  lookup-tick_steps ttl k ((j, st) ∷ m) = ground (arith, lookup-tick_steps ttl k m)

  -- After a tick every step that waits has an expiry, and it lies ahead.
  pub tick_approvals_prompt :
      (s : Service) (k : String) (st : Step)
      → lookup k (tick_approvals rt now s).steps ≡ some st
      → IsWaiting st
      → (e : ℕ) × (st.expires_at ≡ some e) × (now < e)
  unfolding tick_approvals IsSettled
  tick_approvals_prompt s k st found w =
      let (before, _, same) = (Option.map-eq-some_iff _ _).0 (rw lookup-tick_steps at found) in
      let (e, expires, ahead, _) =
        subst (IsSettled rt now s.default_ttl) same (ticked-IsSettled rt now s.default_ttl before)
          w in
      (e, expires, ahead)
