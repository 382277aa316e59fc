-- ===== src/Jobs/History/Budget.antt =====
-- The attempts of a job without a schedule never exceed its budget, whatever is interleaved.
use release_engine.Prelude.{
  ℕ, String, ◌≤◌, ◌<◌, ◌≡◌, Bool, true, false, Option, none, some, List, All, AllEntries, arith,
  trim_space, ◌==◌,
}
use release_engine.Jobs.Table.{Job, Db, is_queued}
use release_engine.Jobs.Claim.{claimed}
use release_engine.Jobs.Lease.{leased, fence_set}
use release_engine.Jobs.Finalise.{requeue, succeed, exhaust, success_set}
use release_engine.Jobs.History.{Event, fences, succeeds, run}
use release_engine.Jobs.History.Kept.{IsKept, run_keeps}

-- What `computeNextRunAt` takes for no schedule.
abbrev pub is_blank : Option String → Bool
is_blank none = true
is_blank (some s) = trim_space s == ""

-- A job without a schedule has attempts left while it is queued and never exceeds its budget, and a
-- job that recurs has a schedule.
pub record IsBudgeted (recurs : Bool) (j : Job) : Type 0 where
  pub within : is_blank j.schedule ≡ true → j.attempt ≤ j.max_attempts
  pub left : is_blank j.schedule ≡ true → is_queued j.state ≡ true → j.attempt < j.max_attempts
  pub scheduled : recurs ≡ true → is_blank j.schedule ≡ false

abbrev pub AllBudgeted : (String → Bool) → Db → Type 0
AllBudgeted recurs db = AllEntries (λ k j. IsBudgeted (recurs k) j) db.jobs

module _ (recurs : String → Bool) where
  -- `finaliseSuccess` requeues only recurring jobs, and FinaliseWithFence queues none.
  abbrev pub IsPlanned : Event → Type 0
  IsPlanned (succeeds now id run_id (some next)) = recurs id ≡ true
  IsPlanned (fences bad now job_id run_id state) = is_queued state ≡ false
  IsPlanned _ = Unit

  success-IsBudgeted :
      (now : ℕ) (id run_id : String) (next : Option ℕ)
      → IsPlanned (succeeds now id run_id next)
      → (j : Job) → IsBudgeted (recurs id) j
      → IsBudgeted (recurs id) (success_set now next j)
  unfolding succeed requeue
  success-IsBudgeted now id run_id none c j b = ground (arith, b)
  success-IsBudgeted now id run_id (some next) c j b = ground (arith, b, c)

  IsBudgeted-IsKept : IsKept (λ k j. IsBudgeted (recurs k) j) IsPlanned
  unfolding claimed leased exhaust fence_set
  IsBudgeted-IsKept = record {
    on_claim = λ now fresh k j b. ground (arith, b);
    on_lease = λ now run_id owner_id ttl k j b. ground (arith, b);
    on_fence = λ bad now id run_id state c j b. ground (arith, b, c);
    on_success = success-IsBudgeted;
    on_exhaust = λ now code msg k j b. ground (arith, b);
  }

  -- Whatever statements of the scheduler, the lease manager and the runners are interleaved, where
  -- the jobs that finaliseSuccess requeues have a schedule and FinaliseWithFence is never given
  -- `queued`: from tables where each job without a schedule is within its budget, each stays so. It
  -- never exceeds `max_attempts`, and has an attempt left while it is queued.
  pub run-AllBudgeted :
      (db : Db) (es : List Event)
      → All IsPlanned es
      → AllBudgeted recurs db
      → AllBudgeted recurs (run db es)
  run-AllBudgeted db es planned all = run_keeps _ _ IsBudgeted-IsKept db es planned all
