-- ===== src/Intake/Store/History.antt =====
-- Idempotency of the intake over any later calls and statements on the tables, and the rows it makes.
use release_engine.Prelude.{
  All, ℕ, String, ◌≡◌, false, some, List, [], ◌∷◌, ◌==◌, ok, if◌then◌else◌,
}
use release_engine.Jobs.History
use release_engine.Jobs.History.Invariant
use release_engine.Jobs.History.Invariant.{step-AllRows, AllRows}
use release_engine.Intake.Request.{Request, Record}
use release_engine.Intake.Store.{
  KeyRow, Tables, IntakeFaults, created, replayed, conflicted, find_key, existing, key_row,
  create_job_with_db,
}
use release_engine.Intake.Store.Keys.{intake_keeps, intake_files, intake_known}
use release_engine.Intake.Store.Rows.{intake-AllRows}

-- A call of the intake or a statement of the scheduler, the lease manager and the runners.
pub data Event (P : Type 0) : Type 0 where
  intakes :
      (faults : IntakeFaults) (now : ℕ) (job_id run_id : String) (req : Request P)
      (fingerprint : String) (next : ℕ)
      → Event P
  statement : (e : History.Event) → Event P

module _ {P : Type 0} (encode : P → String) where
  unfoldable pub step : Tables → Event P → Tables
  step st (intakes faults now job_id run_id req fingerprint next) =
      (create_job_with_db encode faults now job_id run_id req fingerprint next st).0
  step st (statement e) = record st { db = History.step st.db e }

  unfoldable pub run : Tables → List (Event P) → Tables
  run st [] = st
  run st (e ∷ es) = run (step st e) es

  run_keeps :
      (tenant path key : String) (x : KeyRow) (st : Tables) (es : List (Event P))
      → find_key tenant path key st.keys ≡ some x
      → find_key tenant path key (run st es).keys ≡ some x
  unfolding run step
  run_keeps tenant path key x st [] h = h
  run_keeps tenant path key x st (intakes faults now job_id run_id req fingerprint next ∷ es) h =
      run_keeps tenant path key x (step st (intakes faults now job_id run_id req fingerprint next))
        es
        (intake_keeps encode faults now job_id run_id req fingerprint next tenant path key x st h)
  run_keeps tenant path key x st (statement e ∷ es) h =
      run_keeps tenant path key x (step st (statement e)) es h

  -- After a request is accepted with 202, and any further requests and statements on the tables,
  -- a request of the same tenant, path and key changes nothing, in a call without a fault: it is
  -- answered with the first record, as a replay if its fingerprint is the same and as a conflict
  -- if not, at whatever instant, also after the `expires_at` of the key, 48 hours later.
  pub create_job_replays :
      (faults later : IntakeFaults) (now then_at : ℕ) (job_id run_id job_id' run_id' : String)
      (req other : Request P) (fp fp' : String) (next next' : ℕ) (st : Tables) (rec : Record)
      (es : List (Event P))
      → (create_job_with_db encode faults now job_id run_id req fp next st).1 ≡ ok (created rec)
      → later.acquire ≡ false
      → later.insert_key ≡ false
      → later.fetch ≡ false
      → other.tenant_id ≡ req.tenant_id
      → other.path_key ≡ req.path_key
      → other.idempotency_key ≡ req.idempotency_key
      → let t = run (create_job_with_db encode faults now job_id run_id req fp next st).0 es in
        create_job_with_db encode later then_at job_id' run_id' other fp' next' t
        ≡ (t, ok (if fp == fp' then replayed rec else conflicted rec))
  unfolding existing
  create_job_replays faults later now then_at job_id run_id job_id' run_id' req other fp fp' next
        next' st rec es done a b c t p k =
      let (filed, said) = intake_files encode faults now job_id run_id req fp next st rec done in
      let kept = run_keeps req.tenant_id req.path_key req.idempotency_key _ _ es filed in
      rw said (
        intake_known encode later then_at job_id' run_id' other fp' next'
          (run (create_job_with_db encode faults now job_id run_id req fp next st).0 es)
          (key_row encode now job_id req fp next) a b c (rw (t, p, k) kept))

  -- FinaliseWithFence is given no state but failed and canceled.
  abbrev pub IsCareful : Event P → Type 0
  IsCareful (intakes faults now job_id run_id req fingerprint next) = Unit
  IsCareful (statement e) = Invariant.IsCareful e

  -- Requests, and any statements of the scheduler, the lease manager and the runners between them,
  -- those of the finalisations one by one, keep every row of `jobs` sound, where FinaliseWithFence
  -- is given no state but failed and canceled.
  pub run_intake-AllRows :
      (st : Tables) (es : List (Event P))
      → All IsCareful es
      → AllRows st.db
      → AllRows (run st es).db
  unfolding run step
  run_intake-AllRows st [] careful all = all
  run_intake-AllRows st (intakes faults now job_id run_id req fp next ∷ es) (_, careful) all =
      run_intake-AllRows (step st (intakes faults now job_id run_id req fp next)) es careful
        (intake-AllRows encode faults now job_id run_id req fp next st all)
  run_intake-AllRows st (statement e ∷ es) (c, careful) all =
      run_intake-AllRows (step st (statement e)) es careful (step-AllRows st.db e c all)
