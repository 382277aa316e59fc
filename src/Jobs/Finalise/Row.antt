-- ===== src/Jobs/Finalise/Row.antt =====
-- What holds of a row of `jobs` between two statements, and that each SET clause keeps it.
use release_engine.Prelude.{ℕ, String, ◌≡◌, Bool, true, false, Option, none, some, is_some, arith}
use release_engine.Jobs.Table.{
  Job, JobState, failed, canceled, succeeded, jobs_exhausted, is_queued, is_running,
}
use release_engine.Jobs.Finalise.{requeue, succeed, exhaust, success_set}
use release_engine.Jobs.Claim.{claimed}
use release_engine.Jobs.Lease.{leased, fence_set}

abbrev pub is_done : JobState → Bool
is_done succeeded = true
is_done jobs_exhausted = true
is_done _ = false

-- A state that asks nothing of the other columns but that there is no lease: `failed` or `canceled`.
abbrev pub is_outside : JobState → Bool
is_outside failed = true
is_outside canceled = true
is_outside _ = false

-- A running job has an owner and a lease, any other has neither; a queued job has a time to run; a
-- job that has ended has its end and no time to run.
pub record IsSound (j : Job) : Type 0 where
  pub held :
      is_running j.state ≡ true → (is_some j.owner_id ≡ true) × (is_some j.lease_expires_at ≡ true)
  pub released : is_running j.state ≡ false → (j.owner_id ≡ none) × (j.lease_expires_at ≡ none)
  pub planned : is_queued j.state ≡ true → is_some j.next_run_at ≡ true
  pub ended : is_done j.state ≡ true → (j.next_run_at ≡ none) × (is_some j.finished_at ≡ true)

module _ (now : ℕ) (j : Job) where
  pub claimed-IsSound : (fresh : String → String) → IsSound j → IsSound (claimed now fresh j)
  unfolding claimed
  claimed-IsSound fresh s = ground arith

  pub exhaust-IsSound : (code msg : String) → IsSound j → IsSound (exhaust now code msg j)
  unfolding exhaust
  exhaust-IsSound code msg s = ground arith

  pub leased-IsSound :
      (run_id owner_id : String) (ttl : ℕ) → IsSound j → IsSound (leased now run_id owner_id ttl j)
  unfolding leased
  leased-IsSound run_id owner_id ttl s = ground arith

  pub success-IsSound : (next : Option ℕ) → IsSound j → IsSound (success_set now next j)
  unfolding requeue succeed
  success-IsSound none s = ground arith
  success-IsSound (some next) s = ground arith

  -- FinaliseWithFence sets no time to run and no end, so it may not name a state that has one.
  pub fenced-IsSound :
      (state : JobState) → is_outside state ≡ true → IsSound j → IsSound (fence_set now state j)
  unfolding fence_set
  fenced-IsSound state outside s = ground (arith, outside)
