-- ===== src/Intake/Store/Keys.antt =====
-- What one call of the intake does to `idempotency_keys`.
use release_engine.Prelude.{
  ℕ, String, ◌≡◌, refl, inl, inr, true, false, none, some, List, [], ◌∷◌, ◌++◌, eq_refl, arith,
  Bool-cases, Option-cases, ok,
}
use release_engine.Intake.Request.{Request, Record}
use release_engine.Intake.Store.{
  KeyRow, Tables, IntakeFaults, created, is_key, find_key, existing, key_row, new_record,
  insert_job, create_job_with_db,
}

find_key-append :
    (tenant path key : String) (rows : List KeyRow) (r x : KeyRow)
    → find_key tenant path key rows ≡ some x
    → find_key tenant path key (rows ++ r ∷ []) ≡ some x
unfolding find_key
find_key-append tenant path key [] r x h = cc
find_key-append tenant path key (y ∷ rows) r x h =
    ground (arith, h, find_key-append tenant path key rows r x)

pub find_key-append_new :
    (tenant path key : String) (rows : List KeyRow) (r : KeyRow)
    → find_key tenant path key rows ≡ none
    → is_key tenant path key r ≡ true
    → find_key tenant path key (rows ++ r ∷ []) ≡ some r
unfolding find_key
find_key-append_new tenant path key [] r h same = ground (arith, same)
find_key-append_new tenant path key (y ∷ rows) r h same =
    ground (arith, h, same, find_key-append_new tenant path key rows r)

module _ {P : Type 0} (encode : P → String) where
  module _ (faults : IntakeFaults) (now : ℕ) (job_id run_id : String) (req : Request P)
      (fingerprint : String) (next : ℕ) where
    keys-insert_job :
        (st : Tables)
        → (insert_job encode faults now job_id run_id req fingerprint next st).0.keys ≡ st.keys
    unfolding insert_job
    keys-insert_job st = ground arith

    insert_job_created :
        (st : Tables) (rec : Record)
        → (insert_job encode faults now job_id run_id req fingerprint next st).1 ≡ ok (created rec)
        → rec ≡ new_record encode now job_id req fingerprint next
    unfolding insert_job
    insert_job_created st rec done = ground (arith, done)

    pub intake_keeps :
        (tenant path key : String) (x : KeyRow) (st : Tables)
        → find_key tenant path key st.keys ≡ some x
        → find_key tenant path key
            (create_job_with_db encode faults now job_id run_id req fingerprint next st).0.keys
          ≡ some x
    unfolding create_job_with_db
    intake_keeps tenant path key x st h = elim (Bool-cases faults.acquire) [
      | inl a ↦ rw a h
      | inr a ↦ elim (Bool-cases faults.insert_key) [
        | inl b ↦ rw (a, b) h
        | inr b ↦
            elim (Option-cases (find_key req.tenant_id req.path_key req.idempotency_key st.keys)) [
              | inl e ↦
                  rw (a, b, e, create_job_with_db)
                    (rw keys-insert_job (find_key-append tenant path key st.keys _ x h))
              | inr (r, e) ↦ elim (Bool-cases faults.fetch) [
                | inl c ↦ rw (a, b, e, c, create_job_with_db) h
                | inr c ↦ rw (a, b, e, c, create_job_with_db) h
              ]
            ]
      ]
    ]

    pub own :
        is_key req.tenant_id req.path_key req.idempotency_key
          (key_row encode now job_id req fingerprint next)
        ≡ true
    own = ground (arith, eq_refl req.tenant_id, eq_refl req.path_key, eq_refl req.idempotency_key)

    -- What a creation leaves in `idempotency_keys`.
    pub intake_files :
        (st : Tables) (rec : Record)
        → (create_job_with_db encode faults now job_id run_id req fingerprint next st).1
          ≡ ok (created rec)
        → find_key req.tenant_id req.path_key req.idempotency_key
              (create_job_with_db encode faults now job_id run_id req fingerprint next st).0.keys
            ≡ some (key_row encode now job_id req fingerprint next)
          × (rec ≡ new_record encode now job_id req fingerprint next)
    unfolding create_job_with_db insert_job existing
    intake_files st rec done = elim (Bool-cases faults.acquire) [
      | inl a ↦ absurd (let stuck = rw a at done in cc)
      | inr a ↦ elim (Bool-cases faults.insert_key) [
        | inl b ↦ absurd (let stuck = rw (a, b) at done in cc)
        | inr b ↦
            elim (Option-cases (find_key req.tenant_id req.path_key req.idempotency_key st.keys)) [
              | inr (r, e) ↦
                  absurd
                    (let stuck = rw (a, b, e, create_job_with_db) at done in ground (arith, stuck))
              | inl e ↦
                  let made = rw (a, b, e, create_job_with_db) at done in
                  rw (a, b, e, create_job_with_db)
                    (
                      rw keys-insert_job (
                          find_key-append_new req.tenant_id req.path_key req.idempotency_key st.keys
                            _ e own),
                      insert_job_created _ rec made,
                    )
            ]
      ]
    ]

    -- A call whose key has a row is answered from it.
    pub intake_known :
        (st : Tables) (r : KeyRow)
        → faults.acquire ≡ false
        → faults.insert_key ≡ false
        → faults.fetch ≡ false
        → find_key req.tenant_id req.path_key req.idempotency_key st.keys ≡ some r
        → create_job_with_db encode faults now job_id run_id req fingerprint next st
          ≡ (st, ok (existing fingerprint r))
    unfolding create_job_with_db
    intake_known st r a b c e = rw (a, b, e, c, create_job_with_db) refl
