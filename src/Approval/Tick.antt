-- ===== src/Approval/Tick.antt =====
-- `ApprovalService.TickApprovals` (internal/transport/http/services.go) and the worker that calls
-- it (approval_worker.go). Go ranges over the map of steps in an open order: here it is the order of
-- the list, and only the order of the events depends on it.
pub mod Laws
use release_engine.Prelude.{
  ℕ, ◌+◌, ◌-◌, ◌*◌, ◌&&◌, Bool, true, not, none, some, [], ◌∷◌, ◌==◌, ltb, leb, eqb, if◌then◌else◌,
  Dict, lookup, insert, is_some,
}
use release_engine.Prelude.Int.{seconds_between}
use release_engine.Outbox
use release_engine.Approval.State.{
  Runtime, DecisionRecord, Step, escalated, expired, ApprovalEvent, approval_escalation,
  approval_timeout, approval_worker_tick, Log, Service, waiting_approval,
}
use release_engine.Approval.Service.{record_metric, record_event}

-- The record that stands for a timeout.
abbrev pub timeout_record : ℕ → DecisionRecord
timeout_record now = record {
  decision = "expired";
  approver = "system";
  justification = "approval_timeout";
  created_at = now;
}

-- `step.expiresAt`, which is set first where it was nil.
abbrev pub expiry : ℕ → ℕ → Step → ℕ
expiry now ttl step = elim step.expires_at [ none ↦ now + ttl | some e ↦ e ]

abbrev pub escalated_event : ℕ → ℕ → Step → ApprovalEvent
escalated_event now expires step = record {
  event_type = Outbox.approval_escalated;
  job_id = step.job_id;
  step_id = step.step_id;
  occurred_at = now;
  payload =
      escalated (seconds_between now step.requested_at) (seconds_between expires now) step.context;
}

abbrev pub expired_event : ℕ → ℕ → Step → ApprovalEvent
expired_event now expires step = record {
  event_type = Outbox.approval_expired;
  job_id = step.job_id;
  step_id = step.step_id;
  occurred_at = now;
  payload = expired "approval_timeout" step.context (seconds_between expires step.requested_at);
}

module _ (rt : Runtime) where
  -- `escalationPoint`; `total <= 0` is a difference that `-` cuts off at 0.
  abbrev pub escalation_point : ℕ → ℕ → Step → ℕ
  escalation_point ttl expires step =
      let total = expires - step.requested_at in
      step.requested_at + rt.escalation_delay (if leb total 0 then ttl else total)

  -- The test of the first `if`.
  unfoldable pub escalates : ℕ → ℕ → ℕ → Step → Bool
  escalates now ttl expires step =
      not step.escalated && (not (ltb now (escalation_point ttl expires step)) && ltb now expires)

  -- The body of the loop, for a step that waits, after its expiry is known.
  unfoldable pub tick_waiting : ℕ → ℕ → ℕ → Step → Step
  tick_waiting now ttl expires step =
      let step1 = record step {
        expires_at = some expires;
        escalated = if escalates now ttl expires step then true else step.escalated;
      } in
      if ltb now expires then step1 else record step1 {
        status = "error";
        decisions =
            if is_some (lookup "system" step.decisions)
            then step.decisions
            else insert "system" (timeout_record now) step.decisions;
      }

  unfoldable pub log_waiting : ℕ → ℕ → ℕ → Step → Log → Log
  log_waiting now ttl expires step log =
      let log1 =
        if escalates now ttl expires step
        then record_event (escalated_event now expires step)
            (record_metric (approval_escalation step.tenant_id step.path_key) log)
        else log in
      if ltb now expires
      then log1
      else record_event (expired_event now expires step)
          (record_metric (approval_timeout step.tenant_id step.path_key) log1)

  -- The body of the loop: what it does to the step, and what it writes.
  unfoldable pub ticked : ℕ → ℕ → Step → Step
  ticked now ttl step =
      if not (step.status == waiting_approval)
      then step
      else tick_waiting now ttl (expiry now ttl step) step

  unfoldable pub ticked_log : ℕ → ℕ → Step → Log → Log
  ticked_log now ttl step log =
      if not (step.status == waiting_approval)
      then log
      else log_waiting now ttl (expiry now ttl step) step log

  -- The loop.
  unfoldable pub tick_steps : ℕ → ℕ → Dict Step → Dict Step
  tick_steps now ttl [] = []
  tick_steps now ttl ((k, step) ∷ m) = (k, ticked now ttl step) ∷ tick_steps now ttl m

  unfoldable pub tick_log : ℕ → ℕ → Dict Step → Log → Log
  tick_log now ttl [] log = log
  tick_log now ttl ((k, step) ∷ m) log = tick_log now ttl m (ticked_log now ttl step log)

  -- `TickApprovals`
  unfoldable pub tick_approvals : ℕ → Service → Service
  tick_approvals now s = record s {
    steps = tick_steps now s.default_ttl s.steps;
    log = tick_log now s.default_ttl s.steps s.log;
  }

  -- `ApprovalWorker.Tick`: the deferred metric follows the tick.
  unfoldable pub worker_tick : ℕ → Service → Service
  worker_tick now s =
      let s' = tick_approvals now s in
      record s' { log = record_metric (approval_worker_tick "success") s'.log }
