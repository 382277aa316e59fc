-- ===== src/Intake/CreateJob/Refusals.antt =====
-- The answers of `CreateJob` that leave everything as it was.
use release_engine.Prelude.{
  ℕ, String, ap, ◌≡◌, ◌≢◌, ◌⊎◌, inl, inr, refl, true, false, Option, ok, arith, Bool-cases,
  Option-cases, Result-cases, lookup, Dict,
}
use release_engine.Intake.Request.{Request, Record, Envelope, next_run_at}
use release_engine.Intake.Store.{
  KeyRow, Tables, IntakeFaults, Intake, created, replayed, conflicted, create_job_with_db,
  insert_job, existing, find_key, KeyRow, envelope_of,
}
use release_engine.Intake.Store.Keys.{intake_files}
use release_engine.Intake.CreateJob.{
  Libraries, Handler, Draw, admit, create_job, store_job, handle_in_memory, idem_key,
}

abbrev IsCreated : Intake → Type 0
IsCreated intake = (rec : Record) × (intake ≡ created rec)

existing_made : (fp : String) (r : KeyRow) (rec : Record) → existing fp r ≢ created rec
unfolding existing
existing_made fp r rec h = ground (arith, h)

insert_made :
    {P : Type 0} (encode : P → String) (faults : IntakeFaults) (now : ℕ) (job_id run_id : String)
    (req : Request P) (fp : String) (next : ℕ) (st : Tables) (intake : Intake)
    → (insert_job encode faults now job_id run_id req fp next st).1 ≡ ok intake
    → IsCreated intake
unfolding insert_job
insert_made encode faults now job_id run_id req fp next st (created rec) h = (rec, refl)
insert_made encode faults now job_id run_id req fp next st (replayed rec) h =
    absurd (ground (arith, h))
insert_made encode faults now job_id run_id req fp next st (conflicted rec) h =
    absurd (ground (arith, h))

-- A call of the store that makes nothing new changes nothing.
store_kept :
    {P : Type 0} (encode : P → String) (faults : IntakeFaults) (now : ℕ) (job_id run_id : String)
    (req : Request P) (fp : String) (next : ℕ) (st : Tables) (intake : Intake)
    → (create_job_with_db encode faults now job_id run_id req fp next st).1 ≡ ok intake
    → IsCreated intake
      ⊎ ((create_job_with_db encode faults now job_id run_id req fp next st).0 ≡ st)
unfolding create_job_with_db
store_kept encode faults now job_id run_id req fp next st intake h =
    elim (Bool-cases faults.acquire) [
      | inl a ↦ inr (rw a refl)
      | inr a ↦ elim (Bool-cases faults.insert_key) [
        | inl b ↦ inr (rw (a, b) refl)
        | inr b ↦
            elim (Option-cases (find_key req.tenant_id req.path_key req.idempotency_key st.keys)) [
              | inl e ↦ inl (
                  insert_made encode faults now job_id run_id req fp next _ intake
                    (rw (a, b, e, create_job_with_db) at h))
              | inr (r, e) ↦ elim (Bool-cases faults.fetch) [
                | inl c ↦ inr (rw (a, b, e, c, create_job_with_db) refl)
                | inr c ↦ inr (rw (a, b, e, c, create_job_with_db) refl)
              ]
            ]
      ]
    ]

memory_kept :
    (key fp : String) (env : Envelope) (idem : Dict Record)
    → ((rec : Record) × (rec.status_code ≡ 202)
        × ((handle_in_memory key fp env idem).1 ≡ created rec))
      ⊎ ((handle_in_memory key fp env idem).0 ≡ idem)
unfolding handle_in_memory
memory_kept key fp env idem = elim (Option-cases (lookup key idem)) [
  | inl e ↦ inl (
    record { fingerprint = fp; status_code = 202; envelope = env },
    refl,
    rw (e, handle_in_memory) refl,
  )
  | inr (rec, e) ↦ inr (rw (e, handle_in_memory) refl)
]

module _ {B P : Type 0} (lib : Libraries B P) (faults : IntakeFaults) (draw : Draw) where
  store_job_kept :
      (req : Request P) (fp : String) (h : Handler)
      → (store_job lib faults draw req fp h).1.status ≢ 202
      → (store_job lib faults draw req fp h).1.status ≢ 500
      → (store_job lib faults draw req fp h).0 ≡ h
  unfolding store_job
  store_job_kept req fp h accepted broken =
      let next = next_run_at draw.first_run_at req in
      let call =
        create_job_with_db lib.encode faults draw.accepted_at draw.job_id draw.run_id req fp next
          h.tables in
      let env = envelope_of lib.encode draw.accepted_at draw.job_id req next in
      elim (Bool-cases h.has_pool) [
        | inr memory ↦ elim (memory_kept (idem_key lib req) fp env h.idem) [
          | inl (rec, status, made) ↦ absurd ((rw (memory, made) at accepted) status)
          | inr same ↦ rw memory (ap (λ m. record h { has_pool = false; idem = m }) same)
        ]
        | inl pool ↦ elim (Result-cases call.1) [
          | inr (e, f) ↦ absurd ((rw (pool, f, store_job) at broken) refl)
          | inl (intake, f) ↦
              elim (store_kept lib.encode faults draw.accepted_at draw.job_id draw.run_id req fp
                next h.tables intake f) [
                  | inl (rec, made) ↦
                      let done : call.1 ≡ ok (created rec) = cc in
                      let (_, said) =
                        intake_files lib.encode faults draw.accepted_at draw.job_id draw.run_id req
                          fp next h.tables rec done in
                      absurd
                        ((rw (pool, done, store_job) at accepted) (ap (λ r. r.status_code) said))
                  | inr same ↦ rw pool (ap (λ t. record h { has_pool = true; tables = t }) same)
                ]
        ]
      ]

  -- An answer other than 202 and 500, that is a refused body or field or a conflict, leaves the
  -- tables and the handler's own map as they were.
  pub create_job_unchanged :
      (body : Option B) (h : Handler)
      → (create_job lib faults draw body h).1.status ≢ 202
      → (create_job lib faults draw body h).1.status ≢ 500
      → (create_job lib faults draw body h).0 ≡ h
  unfolding create_job
  create_job_unchanged body h accepted broken =
      elim (Result-cases (admit lib h.allow_private_callbacks body)) [
        | inr (f, e) ↦ rw (e, create_job) refl
        | inl ((req, fp), e) ↦
            rw (e, create_job)
              (store_job_kept req fp h (rw (e, create_job) at accepted)
                (rw (e, create_job) at broken))
      ]
