-- ===== src/Approval/History.antt =====
-- The approval service under a history of calls: its mutex makes any concurrent use one of these.
pub mod Invariant
pub mod Idempotency
use release_engine.Prelude.{Option, ℕ, String, List, [], ◌∷◌}
use release_engine.Approval.State.{MetricCall, Runtime, Step, DecisionInput, Service}
use release_engine.Approval.Service.{attach_metrics, seed_step, drain_events, ensure_terminal}
use release_engine.Approval.Submit.{submit_decision}
use release_engine.Approval.Tick.{tick_approvals}

-- One call of a method that changes the service, at the instant it reads.
pub data Call : Type 0 where
  seeds : (now : ℕ) (step : Step) → Call
  submits : (now : ℕ) (input : DecisionInput) → Call
  ticks : (now : ℕ) → Call
  drains : Call
  ensures : (job_id step_id : String) → Call
  attaches : (recorder : Option (List MetricCall)) → Call

module _ (rt : Runtime) where
  unfoldable pub step : Service → Call → Service
  step s (seeds now st) = seed_step now st s
  step s (submits now input) = (submit_decision rt now input s).0
  step s (ticks now) = tick_approvals rt now s
  step s drains = (drain_events s).0
  step s (ensures job_id step_id) = (ensure_terminal job_id step_id s).0
  step s (attaches recorder) = attach_metrics recorder s

  unfoldable pub run : Service → List Call → Service
  run s [] = s
  run s (c ∷ cs) = run (step s c) cs
