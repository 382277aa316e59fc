-- ===== src/Intake/CreateJob/Stores.antt =====
-- What an accepted request leaves in the tables, and which answers leave them alone.
use release_engine.Prelude.{
  ◌+◌, is_some, ℕ, String, ◌≡◌, ◌==◌, ◌&&◌, ◌<>◌, inl, inr, refl, Bool, true, false, Option, none,
  some, List, ok, arith, Bool-cases, Option-cases, Result-cases, lookup, any, ltb,
}
use release_engine.Jobs.Table.{Job, StepRow, or_default, is_parked, project}
use release_engine.Jobs.Claim.{is_runnable}
use release_engine.Intake.Request.{Record, Request, next_run_at}
use release_engine.Intake.Store.{
  IntakeFaults, Intake, created, replayed, conflicted, create_job_with_db, new_job,
}
use release_engine.Intake.Store.Rows.{intake_stores}
use release_engine.Intake.Store.Keys.{intake_files}
use release_engine.Intake.CreateJob.{
  answer, Libraries, Handler, Draw, admit, create_job, store_job, max_create_job_body_bytes,
}
use release_engine.Intake.CreateJob.Laws.{IsValid, validate-IsValid}

answer_created :
    (key : String) (intake : Intake)
    → (answer key intake).status ≡ 202
    → (answer key intake).replayed ≡ some false
    → (rec : Record) × (intake ≡ created rec)
answer_created key (created rec) a b = (rec, refl)
answer_created key (replayed rec) a b = cc
answer_created key (conflicted rec) a b = absurd (ground arith)

module _ {B P : Type 0} (lib : Libraries B P) where
  admit-IsValid :
      (allow : Bool) (body : Option B) (req : Request P) (fp : String)
      → admit lib allow body ≡ ok (req, fp)
      → IsValid lib allow req fp
  unfolding admit
  admit-IsValid allow none req fp h = cc
  admit-IsValid allow (some body) req fp h =
      elim (Bool-cases (ltb max_create_job_body_bytes (lib.length body))) [
        | inl a ↦ absurd (let stuck = rw a at h in cc)
        | inr a ↦ elim (Option-cases (lib.unmarshal body)) [
          | inl b ↦ absurd (let stuck = rw (a, b, admit) at h in cc)
          | inr (raw, b) ↦ validate-IsValid lib allow raw req fp (rw (a, b, admit) at h)
        ]
      ]

  -- A job of a checked request, new in the queue.
  pub record IsSubmitted (allow : Bool) (draw : Draw) (j : Job) : Type 0 where
    pub req : Request P
    pub fp : String
    pub valid : IsValid lib allow req fp
    pub row :
        j
        ≡ new_job lib.encode draw.accepted_at draw.job_id draw.run_id req
            (next_run_at draw.first_run_at req)

  new_job-runnable :
      (draw : Draw) (req : Request P) (steps : List StepRow) (later : ℕ)
      → any (λ r. r.job_id == draw.job_id && is_parked r.status) steps ≡ false
      → let j =
          new_job lib.encode draw.accepted_at draw.job_id draw.run_id req
            (next_run_at draw.first_run_at req) in
        is_runnable (or_default 0 j.next_run_at + later) steps j ≡ true
  unfolding is_runnable new_job
  new_job-runnable draw req steps later h = ground (arith, h)

  module _ (faults : IntakeFaults) (draw : Draw) where
    store_job_stores :
        (req : Request P) (fp : String) (h : Handler)
        → h.has_pool ≡ true
        → (store_job lib faults draw req fp h).1.status ≡ 202
        → (store_job lib faults draw req fp h).1.replayed ≡ some false
        → let j =
            new_job lib.encode draw.accepted_at draw.job_id draw.run_id req
              (next_run_at draw.first_run_at req) in
          let (h', r) = store_job lib faults draw req fp h in
          (lookup draw.job_id h'.tables.db.jobs ≡ some j)
          × (lookup draw.job_id h'.tables.db.jobs_read ≡ some (project j))
          × (r.location ≡ some ("/v1/jobs/" <> draw.job_id))
    unfolding store_job
    store_job_stores req fp h pool status fresh =
        let next = next_run_at draw.first_run_at req in
        let call =
          create_job_with_db lib.encode faults draw.accepted_at draw.job_id draw.run_id req fp next
            h.tables in
        elim (Result-cases call.1) [
          | inr (e, f) ↦
              absurd (let stuck = rw (pool, f, store_job) at status in ground (arith, stuck))
          | inl (intake, f) ↦
              let (rec, g) =
                answer_created req.idempotency_key intake (rw (pool, f, store_job) at status)
                  (rw (pool, f, store_job) at fresh) in
              let done : call.1 ≡ ok (created rec) = cc in
              let (jobs, read) =
                intake_stores lib.encode faults draw.accepted_at draw.job_id draw.run_id req fp next
                  h.tables rec done in
              let (_, made) =
                intake_files lib.encode faults draw.accepted_at draw.job_id draw.run_id req fp next
                  h.tables rec done in
              rw (pool, done, store_job) (jobs, read, rw made refl)
        ]

    -- With a pool, an answer of 202 that is no replay means: `jobs` and `jobs_read` hold, under the
    -- id of the answer's Location, a queued job made of a request that passed every check, with at
    -- least one attempt and a `next_run_at`, and the scheduler finds that row runnable at that
    -- instant and at each later one, where no step of it is parked.
    pub create_job_stores :
        (body : Option B) (steps : List StepRow) (later : ℕ) (h : Handler)
        → h.has_pool ≡ true
        → any (λ r. r.job_id == draw.job_id && is_parked r.status) steps ≡ false
        → (create_job lib faults draw body h).1.status ≡ 202
        → (create_job lib faults draw body h).1.replayed ≡ some false
        → let (h', r) = create_job lib faults draw body h in
          (j : Job) × (lookup draw.job_id h'.tables.db.jobs ≡ some j)
          × (lookup draw.job_id h'.tables.db.jobs_read ≡ some (project j))
          × (r.location ≡ some ("/v1/jobs/" <> draw.job_id))
          × IsSubmitted h.allow_private_callbacks draw j
          × (is_some j.next_run_at ≡ true)
          × (is_runnable (or_default 0 j.next_run_at + later) steps j ≡ true)
    unfolding create_job new_job next_run_at
    create_job_stores body steps later h pool idle status fresh =
        elim (Result-cases (admit lib h.allow_private_callbacks body)) [
          | inr (f, e) ↦ absurd (let stuck = rw (e, create_job) at fresh in cc)
          | inl ((req, fp), e) ↦
              let (jobs, read, place) =
                store_job_stores req fp h pool (rw (e, create_job) at status)
                  (rw (e, create_job) at fresh) in
              rw (e, create_job)
                (
                  new_job lib.encode draw.accepted_at draw.job_id draw.run_id req
                      (next_run_at draw.first_run_at req),
                  jobs,
                  read,
                  place,
                  record {
                    req = req;
                    fp = fp;
                    valid = admit-IsValid h.allow_private_callbacks body req fp e;
                    row = refl;
                  },
                  refl,
                  new_job-runnable draw req steps later idle,
                )
        ]
