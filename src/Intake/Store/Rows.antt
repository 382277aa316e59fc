-- ===== src/Intake/Store/Rows.antt =====
-- A call of the intake keeps the rows of `jobs` sound.
use release_engine.Prelude.{
  some, ◌≡◌, lookup-insert, eq_refl, ok, ◌||◌, ℕ, String, inl, inr, arith, Bool-cases, Option-cases,
  lookup, AllEntries-insert, is_some,
}
use release_engine.Jobs.Finalise.Row.{IsSound}
use release_engine.Jobs.History.Invariant.{AllRows}
use release_engine.Intake.Request.{Record, Request}
use release_engine.Jobs.Table.{project}
use release_engine.Intake.Store.{
  existing, created, Tables, IntakeFaults, find_key, has_tenant_key, new_job, insert_job,
  create_job_with_db,
}

module _ {P : Type 0} (encode : P → String) where
  module _ (faults : IntakeFaults) (now : ℕ) (job_id run_id : String) (req : Request P)
      (fingerprint : String) (next : ℕ) where
    new_job-IsSound : IsSound (new_job encode now job_id run_id req next)
    unfolding new_job
    new_job-IsSound = ground arith

    insert_job-AllRows :
        (st : Tables)
        → AllRows st.db
        → AllRows (insert_job encode faults now job_id run_id req fingerprint next st).0.db
    unfolding insert_job
    insert_job-AllRows st all =
        let set =
          AllEntries-insert (λ k j. IsSound j) job_id (new_job encode now job_id run_id req next)
            st.db.jobs all new_job-IsSound in
        elim (Bool-cases faults.insert_job) [
          | inl a ↦ rw a all
          | inr a ↦
              elim (Bool-cases (
                is_some (lookup job_id st.db.jobs)
                || has_tenant_key req.tenant_id req.idempotency_key st.db.jobs)) [
                  | inl b ↦ rw (a, b) all
                  | inr b ↦ elim (Bool-cases faults.insert_read) [
                    | inl c ↦ rw (a, b, c) set
                    | inr c ↦ elim (Bool-cases (is_some (lookup job_id st.db.jobs_read))) [
                      | inl d ↦ rw (a, b, c, d) set
                      | inr d ↦ rw (a, b, c, d) set
                    ]
                  ]
                ]
        ]

    pub intake-AllRows :
        (st : Tables)
        → AllRows st.db
        → AllRows (create_job_with_db encode faults now job_id run_id req fingerprint next st).0.db
    unfolding create_job_with_db
    intake-AllRows st all = elim (Bool-cases faults.acquire) [
      | inl a ↦ rw a all
      | inr a ↦ elim (Bool-cases faults.insert_key) [
        | inl b ↦ rw (a, b) all
        | inr b ↦
            elim (Option-cases (find_key req.tenant_id req.path_key req.idempotency_key st.keys)) [
              | inl e ↦ rw (a, b, e, create_job_with_db) (insert_job-AllRows _ all)
              | inr (r, e) ↦ elim (Bool-cases faults.fetch) [
                | inl c ↦ rw (a, b, e, c, create_job_with_db) all
                | inr c ↦ rw (a, b, e, c, create_job_with_db) all
              ]
            ]
      ]
    ]

    -- What a creation leaves in `jobs` and `jobs_read`.
    insert_job_stores :
        (st : Tables) (rec : Record)
        → (insert_job encode faults now job_id run_id req fingerprint next st).1 ≡ ok (created rec)
        → let j = new_job encode now job_id run_id req next in
          let t = (insert_job encode faults now job_id run_id req fingerprint next st).0 in
          (lookup job_id t.db.jobs ≡ some j) × (lookup job_id t.db.jobs_read ≡ some (project j))
    unfolding insert_job
    insert_job_stores st rec done =
        let j = new_job encode now job_id run_id req next in
        let jobs = lookup-insert job_id job_id j st.db.jobs in
        let read = lookup-insert job_id job_id (project j) st.db.jobs_read in
        ground (arith, done, jobs, read, eq_refl job_id)

    pub intake_stores :
        (st : Tables) (rec : Record)
        → (create_job_with_db encode faults now job_id run_id req fingerprint next st).1
          ≡ ok (created rec)
        → let j = new_job encode now job_id run_id req next in
          let t = (create_job_with_db encode faults now job_id run_id req fingerprint next st).0 in
          (lookup job_id t.db.jobs ≡ some j) × (lookup job_id t.db.jobs_read ≡ some (project j))
    unfolding create_job_with_db existing
    intake_stores st rec done = elim (Bool-cases faults.acquire) [
      | inl a ↦ absurd (let stuck = rw a at done in cc)
      | inr a ↦ elim (Bool-cases faults.insert_key) [
        | inl b ↦ absurd (let stuck = rw (a, b) at done in cc)
        | inr b ↦
            elim (Option-cases (find_key req.tenant_id req.path_key req.idempotency_key st.keys)) [
              | inr (r, e) ↦
                  absurd
                    (let stuck = rw (a, b, e, create_job_with_db) at done in ground (arith, stuck))
              | inl e ↦
                  rw (a, b, e, create_job_with_db)
                    (insert_job_stores _ rec (rw (a, b, e, create_job_with_db) at done))
            ]
      ]
    ]
