-- ===== src/Jobs/History/Invariant.antt =====
-- Every row stays sound, whatever is interleaved.
use release_engine.Prelude.{◌≡◌, true, List, All, AllEntries}
use release_engine.Jobs.Table.{Db}
use release_engine.Jobs.History.{Event, fences, step, run}
use release_engine.Jobs.History.Kept.{IsKept, step_keeps, run_keeps}
use release_engine.Jobs.Finalise.Row.{
  IsSound, is_outside, claimed-IsSound, success-IsSound, leased-IsSound, exhaust-IsSound,
  fenced-IsSound,
}

abbrev pub AllRows : Db → Type 0
AllRows db = AllEntries (λ k j. IsSound j) db.jobs

-- FinaliseWithFence is given no state but failed and canceled.
abbrev pub IsCareful : Event → Type 0
IsCareful (fences bad now job_id run_id state) = is_outside state ≡ true
IsCareful _ = Unit

IsSound-IsKept : IsKept (λ k j. IsSound j) IsCareful
IsSound-IsKept = record {
  on_claim = λ now fresh k j s. claimed-IsSound now j fresh s;
  on_lease = λ now run_id owner_id ttl k j s. leased-IsSound now j run_id owner_id ttl s;
  on_fence = λ bad now id run_id state outside j s. fenced-IsSound now j state outside s;
  on_success = λ now id run_id next c j s. success-IsSound now j next s;
  on_exhaust = λ now code msg k j s. exhaust-IsSound now j code msg s;
}

pub step-AllRows : (db : Db) (e : Event) → IsCareful e → AllRows db → AllRows (step db e)
step-AllRows db e c all = step_keeps _ _ IsSound-IsKept db e c all

-- Whatever statements of the scheduler, the lease manager and the runners are interleaved, those of
-- the finalisations one by one, and where FinaliseWithFence is given no state but failed and
-- canceled: from tables whose rows of `jobs` are sound every row stays sound. A running job has an
-- owner and a lease, any other job has neither, a queued job has a time to run, and a job that has
-- succeeded or is exhausted has none and has its end.
pub run-AllRows : (db : Db) (es : List Event) → All IsCareful es → AllRows db → AllRows (run db es)
run-AllRows db es careful all = run_keeps _ _ IsSound-IsKept db es careful all
