-- ===== src/Approval/Service.antt =====
-- `ApprovalService` (internal/transport/http/services.go): construction, seeding, draining, and
-- the writes to its log. The mutex makes each operation one step; `now` is what `nowFn` returns.
use release_engine.Prelude.{
  ℕ, String, ◌+◌, ◌*◌, ◌<>◌, Bool, true, false, ◌||◌, Option, none, some, List, [], ◌∷◌, ◌++◌, ◌==◌,
  eqb, if◌then◌else◌, lookup, insert, is_some,
}
use release_engine.Outbox
use release_engine.Outbox.{Event, Dispatcher, emit}
use release_engine.Approval.State.{
  Step, Payload, requested, ApprovalEvent, MetricCall, approval_request, Log, Service,
  waiting_approval,
}

abbrev pub hour : ℕ
hour = 3_600_000_000_000

-- `stepMapKey`
abbrev pub step_map_key : String → String → String
step_map_key job_id step_id = job_id <> (":" <> step_id)

-- `if s.metrics != nil { s.metrics.Record…(…) }`
abbrev pub record_metric : MetricCall → Log → Log
record_metric call log = elim log.metrics [
  | none ↦ log
  | some calls ↦ record log { metrics = some (calls ++ call ∷ []) }
]

-- `recordEventLocked`; the error of `Emit` is dropped.
abbrev pub record_event : ApprovalEvent → Log → Log
record_event event log = record log {
  events = log.events ++ event ∷ [];
  outbox = elim log.outbox [ none ↦ none | some d ↦ some (emit d event).0 ];
}

-- The defaults that `SeedStep` fills in.
unfoldable pub with_defaults : ℕ → ℕ → Step → Step
with_defaults now ttl step =
    let status : String = if step.status == "" then waiting_approval else step.status in
    let requested_at : ℕ = if eqb step.requested_at 0 then now else step.requested_at in
    let expires_at : Option ℕ =
      if is_some step.expires_at
      then step.expires_at
      else if status == waiting_approval
      then some (requested_at + ttl)
      else none in
    record step { status = status; requested_at = requested_at; expires_at = expires_at }

abbrev pub requested_event : ℕ → Step → ApprovalEvent
requested_event now step = record {
  event_type = Outbox.approval_requested;
  job_id = step.job_id;
  step_id = step.step_id;
  occurred_at = now;
  payload = requested step.context step.context.policy_ref step.expires_at;
}

-- `SeedStep`
unfoldable pub seed_step : ℕ → Step → Service → Service
seed_step now step0 s =
    let step = with_defaults now s.default_ttl step0 in
    let steps = insert (step_map_key step.job_id step.step_id) step s.steps in
    if step.status == waiting_approval
    then record s {
      steps = steps;
      log =
          record_event (requested_event now step)
            (record_metric (approval_request step.tenant_id step.path_key step.step_id) s.log);
    }
    else record s { steps = steps }

-- `DrainEvents`; the slice it returns is nil where this is [].
unfoldable pub drain_events : Service → Service × List ApprovalEvent
drain_events s = (record s { log = record log { events = [] } }, log.events)
  where
    open s use {log}

-- `EnsureTerminal`
unfoldable pub ensure_terminal : String → String → Service → Service × Bool
ensure_terminal job_id step_id s = elim (lookup (step_map_key job_id step_id) s.steps) [
  | none ↦ (s, false)
  | some step ↦
      if step.status == waiting_approval
      then (
        record s {
          steps = insert (step_map_key job_id step_id) (record step { status = "running" }) s.steps;
        },
        true,
      )
      else (
        s,
        step.status == "running"
            || step.status == "succeeded"
            || step.status == "failed"
            || step.status == "jobs_exhausted",
      )
]

-- The step that the constructor seeds, asked for at `now`.
abbrev pub demo_step : ℕ → Step
demo_step now = record {
  job_id = "job-123";
  step_id = "step-456";
  tenant_id = "acme-prod";
  path_key = "deploy-production";
  status = waiting_approval;
  job_owner = "owner-1";
  context = record {
    summary = "Approve production deployment";
    detail = "Deploy release 2026.03.11 to production";
    blast_radius = "high";
    policy_ref = "paths.deploy-production.approval";
    metadata = ("change_id", "CHANGE-1234") ∷ [];
  };
  policy = record {
    required = true;
    min_approvers = 2;
    allowed_roles = "release-manager" ∷ "team-lead" ∷ [];
    self_approval = false;
  };
  requested_at = now;
  expires_at = some (now + 48 * hour);
  escalated = false;
  decisions = [];
}

-- `NewApprovalServiceWithOutbox`, whose two readings of the clock are `now`.
unfoldable pub new_approval_service : ℕ → Option (Dispatcher Payload) → Service
unfolding seed_step with_defaults drain_events
new_approval_service now dispatcher =
    let empty : Service = record {
      steps = [];
      idem = [];
      log = record { events = []; outbox = dispatcher; metrics = none };
      default_ttl = 48 * hour;
    } in
    (drain_events (seed_step now (demo_step now) empty)).0

-- `AttachMetrics`
abbrev pub attach_metrics : Option (List MetricCall) → Service → Service
attach_metrics recorder s = record s { log = record log { metrics = recorder } }
  where
    open s use {log}
