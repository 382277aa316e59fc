-- ===== src/Jobs/Finalise/Fence.antt =====
-- The fence: a run that no longer holds its job cannot finalise it.
use release_engine.Prelude.{
  Option, insert, true, ℕ, String, ◌≡◌, ◌≢◌, ◌⊎◌, inl, inr, false, none, some, eq_iff, arith,
  Option-cases, lookup, Dict, Result, ok?,
}
use release_engine.Jobs.Table.{Job, is_running, Db, fenced_update}
use release_engine.Jobs.Finalise.{
  Faults, Cron, Meanwhile, exhaust, finalise_failure, finalise_terminal, finalise_success,
  fenced_schedule,
}

-- The row is gone, is of another run, or is not running.
abbrev pub IsFencedOut : String → String → Dict Job → Type 0
IsFencedOut id run_id jobs =
    (j : Job) → lookup id jobs ≡ some j → (j.run_id ≢ run_id) ⊎ (is_running j.state ≡ false)

module _ (id run_id : String) where
  pub fenced_update-none :
      (set : Job → Job) (jobs : Dict Job)
      → IsFencedOut id run_id jobs
      → fenced_update id run_id set jobs ≡ none
  unfolding fenced_update
  fenced_update-none set jobs out = elim (Option-cases (lookup id jobs)) [
    | inl e ↦ rw (e, fenced_update)
    | inr (j, e) ↦ rw (e, fenced_update) (ground (arith, out j e, eq_iff j.run_id run_id))
  ]

  -- An update under the fence that takes effect is of the run's own row.
  pub fenced_update-some :
      (set : Job → Job) (jobs jobs' : Dict Job)
      → fenced_update id run_id set jobs ≡ some jobs'
      → (j : Job) × (lookup id jobs ≡ some j)
        × (j.run_id ≡ run_id)
        × (is_running j.state ≡ true)
        × (jobs' ≡ insert id (set j) jobs)
  unfolding fenced_update
  fenced_update-some set jobs jobs' done = elim (Option-cases (lookup id jobs)) [
    | inl e ↦ absurd (no_row e)
    | inr (j, e) ↦ row j e
  ]
    where
      no_row : lookup id jobs ≡ none → ⊥
      no_row e = let stuck : none ≡ some jobs' = rw (e, fenced_update) at done in cc

      row :
          (j : Job)
          → lookup id jobs ≡ some j
          → (j : Job) × (lookup id jobs ≡ some j)
            × (j.run_id ≡ run_id)
            × (is_running j.state ≡ true)
            × (jobs' ≡ insert id (set j) jobs)
      row j e =
          let taken = rw (e, fenced_update) at done in
          (
            j,
            e,
            ground (arith, taken, eq_iff j.run_id run_id),
            ground (arith, taken),
            ground (arith, taken),
          )

  fenced_schedule-none :
      (jobs : Dict Job) → IsFencedOut id run_id jobs → fenced_schedule id run_id jobs ≡ none
  unfolding fenced_schedule
  fenced_schedule-none jobs out = elim (Option-cases (lookup id jobs)) [
    | inl e ↦ rw (e, fenced_schedule)
    | inr (j, e) ↦ rw (e, fenced_schedule) (ground (arith, out j e, eq_iff j.run_id run_id))
  ]

-- The schedule read under the fence is that of the row the later UPDATE writes.
pub schedule_of_row :
    (id run_id : String) (jobs : Dict Job) (s : Option String) (j : Job)
    → fenced_schedule id run_id jobs ≡ some s
    → lookup id jobs ≡ some j
    → j.schedule ≡ s
unfolding fenced_schedule
schedule_of_row id run_id jobs s j read found =
    let taken = rw (found, fenced_schedule) at read in ground (arith, taken)

-- A call on the tables that changes nothing and reports an error.
abbrev pub IsRefused : {E A : Type 0} → Db → Db × Result E A → Type 0
IsRefused db r = (r.0 ≡ db) × ¬ ok? r.1

module _ (faults : Faults) (between : Meanwhile) (id run_id : String) (db : Db) where
  pub finalise_terminal_fenced :
      (code msg : String)
      → IsFencedOut id run_id db.jobs
      → IsRefused db (finalise_terminal faults between id run_id code msg db)
  unfolding finalise_terminal
  finalise_terminal_fenced code msg out =
      rw
        (
          fenced_update-none id run_id (exhaust between.written_at code msg) db.jobs out,
          finalise_terminal,
        )
        (ground arith)

  pub finalise_success_fenced :
      (cron : Cron) (now : ℕ)
      → IsFencedOut id run_id db.jobs
      → IsRefused db (finalise_success cron faults now between id run_id db)
  unfolding finalise_success
  finalise_success_fenced cron now out =
      rw (fenced_schedule-none id run_id db.jobs out, finalise_success) (ground arith)

pub finalise_failure-IsRefused :
    (faults : Faults) (id run_id code msg : String) (db : Db)
    → IsRefused db (finalise_failure faults id run_id code msg db)
unfolding finalise_failure
finalise_failure-IsRefused faults id run_id code msg db = ground arith
