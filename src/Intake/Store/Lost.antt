-- ===== src/Intake/Store/Lost.antt =====
-- An intake that the index on the jobs refuses after its key is stored.
use release_engine.Prelude.{
  ℕ, String, ◌≡◌, refl, true, none, [], ◌∷◌, ◌++◌, eq_refl, lookup, ok, err,
}
use release_engine.Intake.Request.{Request}
use release_engine.Intake.Store.{
  no_intake_faults, Tables, replayed, find_key, has_tenant_key, existing, key_row, new_record,
  insert_job, create_job_with_db, unique_violation,
}
use release_engine.Intake.Store.Keys.{find_key-append_new, own, intake_known}

module _ {P : Type 0} (encode : P → String) where
  intake_refused :
      (now : ℕ) (job_id run_id : String) (req : Request P) (fp : String) (next : ℕ) (st : Tables)
      → find_key req.tenant_id req.path_key req.idempotency_key st.keys ≡ none
      → has_tenant_key req.tenant_id req.idempotency_key st.db.jobs ≡ true
      → lookup job_id st.db.jobs ≡ none
      → create_job_with_db encode no_intake_faults now job_id run_id req fp next st ≡ (
        record st { keys = st.keys ++ key_row encode now job_id req fp next ∷ [] },
        err unique_violation,
      )
  unfolding create_job_with_db insert_job
  intake_refused now job_id run_id req fp next st new taken absent =
      rw (new, create_job_with_db) (rw (absent, taken, insert_job) refl)

  -- A request for a path, under a key that the tenant used for a job of another path, is refused by
  -- the index on the jobs, though no call fails, and leaves its idempotency key behind: the same
  -- request, sent again, is answered as the replay of a job that is not in the table.
  pub create_job_loses :
      (now later : ℕ) (job_id run_id job_id' run_id' : String) (req : Request P) (fp : String)
      (next next' : ℕ) (st : Tables)
      → find_key req.tenant_id req.path_key req.idempotency_key st.keys ≡ none
      → has_tenant_key req.tenant_id req.idempotency_key st.db.jobs ≡ true
      → lookup job_id st.db.jobs ≡ none
      → let (t, refused) =
          create_job_with_db encode no_intake_faults now job_id run_id req fp next st in
        let rec = new_record encode now job_id req fp next in
        (refused ≡ err unique_violation)
        × (create_job_with_db encode no_intake_faults later job_id' run_id' req fp next' t
            ≡ (t, ok (replayed rec)))
        × (lookup rec.envelope.job_id t.db.jobs ≡ none)
  unfolding existing
  create_job_loses now later job_id run_id job_id' run_id' req fp next next' st new taken absent =
      let row = key_row encode now job_id req fp next in
      let t = record st { keys = st.keys ++ row ∷ [] } in
      let filed =
        find_key-append_new req.tenant_id req.path_key req.idempotency_key st.keys row new
          (own encode no_intake_faults now job_id run_id req fp next) in
      let again =
        intake_known encode no_intake_faults later job_id' run_id' req fp next' t row refl refl refl
          filed in
      rw (intake_refused now job_id run_id req fp next st new taken absent)
        (refl, rw again (rw eq_refl refl), absent)
