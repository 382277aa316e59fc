-- ===== src/StepApi/Approvals/Laws.antt =====
-- The approval gate between the run that parks a step, the scheduler and the writer of decisions.
use mathlib.Core.List.{Memᴰ}
use release_engine.Prelude.{
  Bool, inl, inr, ◌&&◌, ℕ, String, ◌≡◌, ◌≢◌, ◌⊎◌, refl, true, false, none, some, List, [], ◌∷◌,
  eq_iff, eq_refl, arith, Bool-cases, Option-cases, is_some, any, All, ok?, ◌==◌,
}
use release_engine.Jobs.Table.{Job, StepRow, is_parked, waiting_approval}
use release_engine.Jobs.Claim.{is_runnable}
use release_engine.StepApi.Steps.{Run, is_same_step, upsert_step, park, persist, new_row}
use release_engine.StepApi.Approvals.{Decision, own_step, newest, poll}

module _ (run : Run) (key : String) where
  upsert_waits :
      (new : StepRow) (set : StepRow → StepRow) (rows : List StepRow)
      → (new.job_id ≡ run.job_id) × (is_parked new.status ≡ true)
      → ((r : StepRow) → ((set r).job_id ≡ r.job_id) × (is_parked (set r).status ≡ true))
      → any (λ r. r.job_id == run.job_id && is_parked r.status) (upsert_step run key new set rows)
        ≡ true
  unfolding upsert_step is_same_step
  upsert_waits new set [] h k = ground (arith, h, eq_iff new.job_id run.job_id)
  upsert_waits new set (r ∷ rs) h k = ground (
    arith,
    k r,
    upsert_waits new set rs h k,
    eq_iff r.job_id run.job_id,
    eq_iff (set r).job_id run.job_id,
  )

  -- No row of the step is the run's own.
  abbrev pub IsForeign : List StepRow → Type 0
  IsForeign rows = All (λ r. (is_same_step run key r ≡ false) ⊎ (r.run_id ≢ run.run_id)) rows

  own_step_foreign : (rows : List StepRow) → IsForeign rows → own_step run key rows ≡ none
  unfolding own_step
  own_step_foreign [] h = refl
  own_step_foreign (r ∷ rs) (here, there) =
      ground (arith, here, own_step_foreign rs there, eq_iff r.run_id run.run_id)

  abbrev pub IsAbsent : List StepRow → Type 0
  IsAbsent rows = All (λ r. is_same_step run key r ≡ false) rows

  upsert-IsForeign :
      (new : StepRow) (set : StepRow → StepRow) (rows : List StepRow)
      → ((r : StepRow) → (set r).run_id ≡ r.run_id)
      → any (is_same_step run key) rows ≡ true
      → IsForeign rows
      → IsForeign (upsert_step run key new set rows)
  unfolding upsert_step
  upsert-IsForeign new set [] k hit h = cc
  upsert-IsForeign new set (r ∷ rs) k hit (here, there) =
      elim (Bool-cases (is_same_step run key r)) [
        | inl same ↦ rw (same, upsert_step) (ground (arith, same, here, k r), there)
        | inr other ↦
            rw (other, upsert_step) (here, upsert-IsForeign new set rs k (rw other at hit) there)
      ]

  pub own_step-upsert :
      (new : StepRow) (set : StepRow → StepRow) (rows : List StepRow)
      → is_same_step run key new ≡ true
      → new.run_id ≡ run.run_id
      → IsAbsent rows
      → own_step run key (upsert_step run key new set rows) ≡ some new.id
  unfolding upsert_step own_step
  own_step-upsert new set [] same own h = ground (arith, same, own, eq_iff new.run_id run.run_id)
  own_step-upsert new set (r ∷ rs) same own (here, there) =
      ground (arith, here, own_step-upsert new set rs same own there)

  newest_finds :
      (step_id : ℕ) (ds : List Decision) (d : Decision)
      → Memᴰ d ds
      → d.job_id ≡ run.job_id
      → d.run_id ≡ run.run_id
      → d.step_id ≡ step_id
      → is_some (newest run step_id ds) ≡ true
  unfolding newest
  newest_finds step_id [] d m a b c = elim m [ ]
  newest_finds step_id (e ∷ ds) d (Memᴰ.head same) a b c =
      let a' : e.job_id ≡ run.job_id = cc in
      let b' : e.run_id ≡ run.run_id = cc in
      let c' : e.step_id ≡ step_id = cc in
      ground (arith, c', (eq_iff e.job_id run.job_id).1 a', (eq_iff e.run_id run.run_id).1 b')
  newest_finds step_id (e ∷ ds) d (Memᴰ.tail m) a b c =
      let rest = newest_finds step_id ds d m a b c in ground (arith, rest)

pub is_same_new :
    (fresh : ℕ) (run : Run) (key : String)
    → is_same_step run key (new_row fresh run key waiting_approval none none) ≡ true
unfolding is_same_step
is_same_new fresh run key = ground (arith, eq_refl run.job_id, eq_refl key)

module _ (fresh : ℕ) (run : Run) (key : String) (rows : List StepRow) where
  -- While a run's step is parked, as a WaitForApproval that got that far leaves it, the scheduler
  -- does not find the run's job runnable, at any time.
  pub park_blocks_claim :
      (no_conn bad : Bool) (now : ℕ) (j : Job)
      → j.id ≡ run.job_id
      → ok? (park no_conn bad fresh run key rows).1
      → is_runnable now (park no_conn bad fresh run key rows).0 j ≡ false
  unfolding park persist is_runnable
  park_blocks_claim no_conn bad now j same parked =
      let waits =
        upsert_waits run key (new_row fresh run key waiting_approval none none)
          (λ r. record r { status = waiting_approval }) rows (refl, refl) (λ r. (refl, refl)) in
      rw same (ground (arith, parked, waits))

  -- A run that parks a step which has a row of the same attempt, where every such row was left
  -- by another run, never sees a decision: no poll finds one, whatever decisions there are.
  pub poll_foreign :
      (no_conn bad : Bool) (ds : List Decision)
      → any (is_same_step run key) rows ≡ true
      → IsForeign run key rows
      → poll run key (park no_conn bad fresh run key rows).0 ds ≡ none
  unfolding park persist poll
  poll_foreign no_conn bad ds hit foreign =
      let before = own_step_foreign run key rows foreign in
      let after = own_step_foreign run key _ (
        upsert-IsForeign run key (new_row fresh run key waiting_approval none none)
          (λ r. record r { status = waiting_approval }) rows (λ r. refl) hit foreign) in
      let own : own_step run key (park no_conn bad fresh run key rows).0 ≡ none =
        elim (Bool-cases (key == "")) [
          | inl e ↦ rw e before
          | inr e ↦ rw e (ground (arith, before, after))
        ] in
      rw (own, poll) refl

  -- A step without a row, once it is parked, is answered by a poll as soon as the decisions hold
  -- one by the run on the step's new row.
  pub poll_finds :
      (ds : List Decision) (d : Decision)
      → IsAbsent run key rows
      → ok? (park false false fresh run key rows).1
      → Memᴰ d ds
      → d.job_id ≡ run.job_id
      → d.run_id ≡ run.run_id
      → d.step_id ≡ fresh
      → is_some (poll run key (park false false fresh run key rows).0 ds) ≡ true
  unfolding park persist poll
  poll_finds ds d absent parked m a b c =
      let row =
        own_step-upsert run key (new_row fresh run key waiting_approval none none)
          (λ r. record r { status = waiting_approval }) rows (is_same_new fresh run key) refl
          absent in
      let found = newest_finds run key fresh ds d m a b c in
      elim (Bool-cases (key == "")) [
        | inl e ↦ absurd (rw e at parked)
        | inr e ↦ elim (Option-cases (newest run fresh ds)) [
          | inl none_found ↦ absurd (let stuck = rw none_found at found in cc)
          | inr (d', hit) ↦ rw (e, row, hit, poll) refl
        ]
      ]
