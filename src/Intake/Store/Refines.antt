-- ===== src/Intake/Store/Refines.antt =====
-- What the intake promises, as a map from keys to records, and that the tables keep the promise.
use mathlib.Core.Path.{sym, ap, ◌∙◌}
use release_engine.Prelude.{
  not, not, ℕ, String, ◌≡◌, refl, inl, inr, true, false, none, some, List, [], ◌∷◌, ◌++◌, ◌==◌,
  ◌&&◌, ◌||◌, arith, Option, Option-cases, lookup, Result, ok, if◌then◌else◌, is_some,
}
use release_engine.Intake.Request.{Request, Record}
use release_engine.Intake.Store.{
  KeyRow, Tables, no_intake_faults, IntakeError, Intake, created, replayed, conflicted, is_key,
  find_key, has_tenant_key, existing, key_row, new_record, insert_job, create_job_with_db,
}

-- The records by tenant, path and key.
abbrev pub Promised : Type 0
Promised = String → String → String → Option Record

-- The first request under a key is recorded; a later one is compared with it.
unfoldable pub promise : {P : Type 0} → Request P → Record → Promised → Promised × Intake
promise req rec known = elim (known req.tenant_id req.path_key req.idempotency_key) [
  | some old ↦ (known, if old.fingerprint == rec.fingerprint then replayed old else conflicted old)
  | none ↦ (
    λ tenant path key. elim (known tenant path key) [
      | some old ↦ some old
      | none ↦
          if (req.tenant_id == tenant && req.path_key == path) && req.idempotency_key == key
          then some rec
          else none
    ],
    created rec,
  )
]

abbrev pub record_of : KeyRow → Record
record_of r = record {
  fingerprint = r.fingerprint;
  status_code = r.status_code;
  envelope = r.response;
}

-- The records that the table of keys stands for.
unfoldable pub promised : Tables → Promised
promised st tenant path key = elim (find_key tenant path key st.keys) [
  | none ↦ none
  | some r ↦ some (record_of r)
]

find_key-snoc :
    (tenant path key : String) (rows : List KeyRow) (r : KeyRow)
    → find_key tenant path key (rows ++ r ∷ []) ≡ elim (find_key tenant path key rows) [
      | some old ↦ some old
      | none ↦ if is_key tenant path key r then some r else none
    ]
unfolding find_key
find_key-snoc tenant path key [] r = ground arith
find_key-snoc tenant path key (x ∷ rows) r = ground (arith, find_key-snoc tenant path key rows r)

module _ {P : Type 0} (encode : P → String) (now : ℕ) (job_id run_id : String) (req : Request P)
    (fp : String) (next : ℕ) where
  abbrev call : Tables → Tables × Result IntakeError Intake
  call st = create_job_with_db encode no_intake_faults now job_id run_id req fp next st

  known_lem :
      (st : Tables) (r : KeyRow)
      → find_key req.tenant_id req.path_key req.idempotency_key st.keys ≡ some r
      → promise req (new_record encode now job_id req fp next) (promised st) ≡ (
        promised st,
        if r.fingerprint == fp then replayed (record_of r) else conflicted (record_of r),
      )
  unfolding promise promised
  known_lem st r e = rw (e, promise) refl

  answered_lem :
      (st : Tables) (r : KeyRow)
      → find_key req.tenant_id req.path_key req.idempotency_key st.keys ≡ some r
      → call st ≡ (
        st,
        ok (if r.fingerprint == fp then replayed (record_of r) else conflicted (record_of r)),
      )
  unfolding create_job_with_db existing
  answered_lem st r e = rw (e, create_job_with_db) refl

  new_lem :
      (st : Tables) (tenant path key : String)
      → find_key req.tenant_id req.path_key req.idempotency_key st.keys ≡ none
      → let row = key_row encode now job_id req fp next in
        (promise req (new_record encode now job_id req fp next) (promised st)).0 tenant path key
        ≡ promised (record st { keys = st.keys ++ row ∷ [] }) tenant path key
  unfolding promise promised
  new_lem st tenant path key e =
      let row = key_row encode now job_id req fp next in
      rw (e, promise) (ground (arith, find_key-snoc tenant path key st.keys row))

  created_lem :
      (st : Tables)
      → find_key req.tenant_id req.path_key req.idempotency_key st.keys ≡ none
      → (promise req (new_record encode now job_id req fp next) (promised st)).1
        ≡ created (new_record encode now job_id req fp next)
  unfolding promise promised
  created_lem st e = rw (e, promise) refl

  insert_lem :
      (st : Tables)
      → lookup job_id st.db.jobs ≡ none
      → lookup job_id st.db.jobs_read ≡ none
      → has_tenant_key req.tenant_id req.idempotency_key st.db.jobs ≡ false
      → ((insert_job encode no_intake_faults now job_id run_id req fp next st).0.keys ≡ st.keys)
        × ((insert_job encode no_intake_faults now job_id run_id req fp next st).1
            ≡ ok (created (new_record encode now job_id req fp next)))
  unfolding insert_job
  insert_lem st fresh fresh_read free = ground (arith, fresh, fresh_read, free)

  made_lem :
      (st : Tables)
      → find_key req.tenant_id req.path_key req.idempotency_key st.keys ≡ none
      → lookup job_id st.db.jobs ≡ none
      → lookup job_id st.db.jobs_read ≡ none
      → has_tenant_key req.tenant_id req.idempotency_key st.db.jobs ≡ false
      → ((call st).0.keys ≡ st.keys ++ key_row encode now job_id req fp next ∷ [])
        × ((call st).1 ≡ ok (created (new_record encode now job_id req fp next)))
  unfolding create_job_with_db
  made_lem st e fresh fresh_read free =
      rw (e, create_job_with_db) (insert_lem _ fresh fresh_read free)

  promised_keys :
      (s t : Tables) (tenant path key : String)
      → s.keys ≡ t.keys
      → promised s tenant path key ≡ promised t tenant path key
  unfolding promised
  promised_keys s t tenant path key h = rw h refl

  -- A call without a fault, that draws a fresh id and whose tenant has used the key for no other job's row,
  -- does to the records that the table stands for, at every key, what the promise says, and answers with
  -- the promise's answer. Neither the promise nor the code lets a key expire: the instant of the call may
  -- be after the key's `expires_at`.
  pub create_job_refines :
      (st : Tables)
      → lookup job_id st.db.jobs ≡ none
      → lookup job_id st.db.jobs_read ≡ none
      → (is_some (find_key req.tenant_id req.path_key req.idempotency_key st.keys)
          || not (has_tenant_key req.tenant_id req.idempotency_key st.db.jobs))
        ≡ true
      → let (known, answer) =
          promise req (new_record encode now job_id req fp next) (promised st) in
        ((tenant path key : String) → promised (call st).0 tenant path key ≡ known tenant path key)
        × ((call st).1 ≡ ok answer)
  create_job_refines st fresh fresh_read free =
      elim (Option-cases (find_key req.tenant_id req.path_key req.idempotency_key st.keys)) [
        | inr (r, e) ↦ rw (known_lem st r e, answered_lem st r e) (λ tenant path key. refl, refl)
        | inl e ↦
            let unused : has_tenant_key req.tenant_id req.idempotency_key st.db.jobs ≡ false =
              ground (arith, e, free) in
            let (keys, said) = made_lem st e fresh fresh_read unused in
            (
              λ tenant path key.
                  promised_keys (call st).0
                    (record st { keys = st.keys ++ key_row encode now job_id req fp next ∷ [] })
                    tenant path key keys
                  ∙ sym (new_lem st tenant path key e),
              said ∙ sym (ap ok (created_lem st e)),
            )
      ]
