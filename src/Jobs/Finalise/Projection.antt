-- ===== src/Jobs/Finalise/Projection.antt =====
-- What `finaliseSuccess` leaves in `jobs`, `jobs_read` and `outbox`, while others write other rows.
use release_engine.Prelude.{
  ◌==◌, Result-cases, ok, List, [], ◌∷◌, none, ◌++◌, arith, Option, Bool-cases, ℕ, ok?, String, ◌≡◌,
  inl, inr, false, some, lookup, insert, Dict, eq_refl, lookup-insert, Option-cases, refl,
  if◌then◌else◌,
}
use mathlib.Core.Path.{◌∙◌, subst}
use release_engine.Jobs.Table.{
  merged_read, Job, JobRead, OutboxRow, Db, project, upsert_read, fenced_update, queued, succeeded,
}
use release_engine.Jobs.Finalise.{
  fenced_schedule, compute_next_run_at, Cron, finalise_success, succeeded_event, succeed, requeue,
  emit_succeeded, success_set, commit_success, Faults, Meanwhile, sync_read,
}
use release_engine.Jobs.Finalise.Fence.{schedule_of_row, fenced_update-some}

-- The row of `jobs_read`, if there is one, names the tenant and the path of the job.
abbrev IsAligned : String → Job → Dict JobRead → Type 0
IsAligned id j m =
    (old : JobRead)
    → lookup id m ≡ some old
    → (old.tenant_id ≡ j.tenant_id) × (old.path_key ≡ j.path_key)

-- The rows of `outbox` of a job.
unfoldable pub events_of : String → List OutboxRow → List OutboxRow
events_of id [] = []
events_of id (e ∷ es) = let rest = events_of id es in if e.job_id == id then e ∷ rest else rest

-- The others leave the rows of the job alone.
abbrev Spares : String → (Db → Db) → Type 0
Spares id f =
    (db : Db)
    → (lookup id (f db).jobs ≡ lookup id db.jobs)
      × (lookup id (f db).jobs_read ≡ lookup id db.jobs_read)
      × (events_of id (f db).outbox ≡ events_of id db.outbox)

-- The row of `jobs` after the success of `j` at `at`.
abbrev IsFinished : ℕ → Option ℕ → Job → Job → Type 0
IsFinished at none j k = k ≡ record j {
  state = succeeded;
  owner_id = none;
  lease_expires_at = none;
  next_run_at = none;
  last_error_code = none;
  last_error_message = none;
  finished_at = some at;
  updated_at = at;
}
IsFinished at (some next) j k = k ≡ record j {
  state = queued;
  owner_id = none;
  lease_expires_at = none;
  next_run_at = some next;
  last_error_code = none;
  last_error_message = none;
  finished_at = none;
  updated_at = at;
}

abbrev IsCopy : Job → JobRead → Type 0
IsCopy k r = r ≡ record {
  id = k.id;
  tenant_id = k.tenant_id;
  path_key = k.path_key;
  state = k.state;
  attempt = k.attempt;
  max_attempts = k.max_attempts;
  schedule = k.schedule;
  owner_id = k.owner_id;
  run_id = k.run_id;
  lease_expires_at = k.lease_expires_at;
  next_run_at = k.next_run_at;
  accepted_at = k.accepted_at;
  last_error_code = k.last_error_code;
  last_error_message = k.last_error_message;
  started_at = k.started_at;
  finished_at = k.finished_at;
  created_at = k.created_at;
  updated_at = k.updated_at;
}

-- The rows of the job in the three tables after its success.
pub record IsCommitted (between : Meanwhile) (id : String) (j : Job) (next : Option ℕ)
    (before after : Db) : Type 0 where
  pub row : Job
  pub copy : JobRead
  pub stored : lookup id after.jobs ≡ some row
  pub finished : IsFinished between.written_at next j row
  pub projected : lookup id after.jobs_read ≡ some copy
  pub copied : IsCopy row copy
  pub announced :
      events_of id after.outbox
      ≡ events_of id before.outbox
        ++ record {
          tenant_id = j.tenant_id;
          job_id = id;
          kind = "event";
          payload_type = "job.succeeded";
          next_run_at = between.emitted_at;
        }
          ∷ []

upsert_read-project :
    (id : String) (j : Job) (m : Dict JobRead)
    → j.id ≡ id
    → IsAligned id j m
    → lookup id (upsert_read j m) ≡ some (project j)
unfolding upsert_read merged_read project
upsert_read-project id j m same aligned =
    subst (λ k. IsAligned k j m → lookup k (upsert_read j m) ≡ some (project j)) same go aligned
  where
    go : IsAligned j.id j m → lookup j.id (upsert_read j m) ≡ some (project j)
    go aligned = elim (Option-cases (lookup j.id m)) [
      | inl e ↦ rw (e, lookup-insert, eq_refl) refl
      | inr (old, e) ↦ rw (e, lookup-insert, eq_refl, (aligned old e).0, (aligned old e).1) refl
    ]

project-IsCopy : (k : Job) → IsCopy k (project k)
unfolding project
project-IsCopy k = refl

success-IsFinished :
    (at : ℕ) (next : Option ℕ) (j : Job) → IsFinished at next j (success_set at next j)
unfolding succeed requeue
success-IsFinished at none j = refl
success-IsFinished at (some next) j = refl

-- What a success leaves of the columns that name the job.
success_names :
    (at : ℕ) (next : Option ℕ) (j : Job)
    → ((success_set at next j).id ≡ j.id)
      × ((success_set at next j).tenant_id ≡ j.tenant_id)
      × ((success_set at next j).path_key ≡ j.path_key)
unfolding succeed requeue
success_names at none j = (refl, refl, refl)
success_names at (some next) j = (refl, refl, refl)

events_of-append :
    (id : String) (es : List OutboxRow) (e : OutboxRow)
    → e.job_id ≡ id
    → events_of id (es ++ e ∷ []) ≡ events_of id es ++ e ∷ []
unfolding events_of
events_of-append id [] e same = rw (same, eq_refl) refl
events_of-append id (x ∷ xs) e same =
    let rest = events_of-append id xs e same in
    elim (Bool-cases (x.job_id == id)) [
      | inl hit ↦ rw (hit, rest, events_of) refl
      | inr miss ↦ rw (miss, rest, events_of) refl
    ]

module _ (faults : Faults) (id : String) (db : Db) (k : Job) (found : lookup id db.jobs ≡ some k)
    (same : k.id ≡ id) where
  sync_read_lem :
      faults.project ≡ false
      → IsAligned id k db.jobs_read
      → (lookup id (sync_read faults id db).jobs ≡ some k)
        × (lookup id (sync_read faults id db).jobs_read ≡ some (project k))
        × ((sync_read faults id db).outbox ≡ db.outbox)
  unfolding sync_read
  sync_read_lem p aligned =
      rw (p, found, sync_read) (found, upsert_read-project id k db.jobs_read same aligned, refl)

  emit_succeeded_lem :
      (at : ℕ)
      → faults.emit ≡ false
      → (lookup id (emit_succeeded faults at id db).jobs ≡ some k)
        × (lookup id (emit_succeeded faults at id db).jobs_read ≡ lookup id db.jobs_read)
        × (events_of id (emit_succeeded faults at id db).outbox
            ≡ events_of id db.outbox ++ succeeded_event at k ∷ [])
  unfolding emit_succeeded
  emit_succeeded_lem at q =
      rw (q, found, emit_succeeded)
        (found, refl, events_of-append id db.outbox (succeeded_event at k) same)

module _ (faults : Faults) (between : Meanwhile) (id run_id : String) (db : Db) (j : Job)
    (spared_update : Spares id between.before_update)
    (spared_project : Spares id between.before_project)
    (spared_emit : Spares id between.before_emit) where
  -- From the written row on.
  tables-IsCommitted :
      (next : Option ℕ)
      → faults.project ≡ false
      → faults.emit ≡ false
      → j.id ≡ id
      → IsAligned id j db.jobs_read
      → let reached = between.before_update db in
        let k = success_set between.written_at next j in
        let synced =
          sync_read faults id
            (between.before_project (record reached { jobs = insert id k reached.jobs })) in
        IsCommitted between id j next db
          (emit_succeeded faults between.emitted_at id (between.before_emit synced))
  tables-IsCommitted next p q same aligned =
      let reached = between.before_update db in
      let k = success_set between.written_at next j in
      let (k_id, k_tenant, k_path) = success_names between.written_at next j in
      let written = record reached { jobs = insert id k reached.jobs } in
      let (jobs_1, read_1, events_1) = spared_update db in
      let row : lookup id written.jobs ≡ some k = rw (lookup-insert, eq_refl) refl in
      let (jobs_2, read_2, events_2) = spared_project written in
      let aligned_2 : IsAligned id k (between.before_project written).jobs_read = λ old e.
        let (t, s) = aligned old (rw (read_2, read_1) at e) in (rw k_tenant t, rw k_path s) in
      let (jobs_3, read_3, outbox_3) =
        sync_read_lem faults id (between.before_project written) k (jobs_2 ∙ row) (k_id ∙ same) p
          aligned_2 in
      let synced = sync_read faults id (between.before_project written) in
      let (jobs_4, read_4, events_4) = spared_emit synced in
      let (jobs_5, read_5, events_5) =
        emit_succeeded_lem faults id (between.before_emit synced) k (jobs_4 ∙ jobs_3) (k_id ∙ same)
          between.emitted_at q in
      record {
        row = k;
        copy = project k;
        stored = jobs_5;
        finished = success-IsFinished between.written_at next j;
        projected = read_5 ∙ (read_4 ∙ read_3);
        copied = project-IsCopy k;
        announced =
            rw (events_5, events_4, outbox_3, events_2, events_1, k_id, k_tenant, same) refl;
      }

  commit_success-IsCommitted :
      (next : Option ℕ)
      → faults.project ≡ false
      → faults.emit ≡ false
      → lookup id db.jobs ≡ some j
      → j.id ≡ id
      → IsAligned id j db.jobs_read
      → ok? (commit_success faults between id run_id next db).1
      → IsCommitted between id j next db (commit_success faults between id run_id next db).0
  unfolding commit_success
  commit_success-IsCommitted next p q found same aligned done =
      let set = success_set between.written_at next in
      let reached = between.before_update db in
      elim (Bool-cases faults.update) [
        | inl u ↦ absurd (rw u at done)
        | inr u ↦ elim (Option-cases (fenced_update id run_id set reached.jobs)) [
          | inl e ↦ absurd (rw (u, e, commit_success) at done)
          | inr (jobs, e) ↦
              let (k, found', _, _, written) =
                fenced_update-some id run_id set reached.jobs jobs e in
              let one : k ≡ j = ground (arith, (spared_update db).0, found, found') in
              let made : jobs ≡ insert id (set j) reached.jobs = rw one at written in
              rw (u, e, made, commit_success) (tables-IsCommitted next p q same aligned)
        ]
      ]

  -- A finaliseSuccess that returns nil, where neither the projection nor the outbox insert fails,
  -- the others leave the rows of this job alone between its statements, and an existing row of
  -- `jobs_read` names the job's tenant and path: the row of `jobs` is then `succeeded`, with its
  -- end and no time to run, or `queued` for the next run that its schedule gives, with no owner, no
  -- lease and no error, and the other columns as before; the row of `jobs_read` has the same value
  -- in each of its columns; and `outbox` has one more event of the job, its job.succeeded.
  pub finalise_success-IsCommitted :
      (cron : Cron) (now : ℕ)
      → faults.project ≡ false
      → faults.emit ≡ false
      → lookup id db.jobs ≡ some j
      → j.id ≡ id
      → IsAligned id j db.jobs_read
      → ok? (finalise_success cron faults now between id run_id db).1
      → (next : Option ℕ) × (compute_next_run_at cron j.schedule now ≡ ok next)
        × IsCommitted between id j next db (finalise_success cron faults now between id run_id db).0
  unfolding finalise_success
  finalise_success-IsCommitted cron now p q found same aligned done =
      elim (Bool-cases faults.acquire) [
        | inl a ↦ absurd (rw a at done)
        | inr a ↦ elim (Bool-cases faults.select) [
          | inl u ↦ absurd (rw (a, u) at done)
          | inr u ↦ elim (Option-cases (fenced_schedule id run_id db.jobs)) [
            | inl e ↦ absurd (rw (a, u, e, finalise_success) at done)
            | inr (s, e) ↦ elim (Result-cases (compute_next_run_at cron s now)) [
              | inl (next, c) ↦
                  let committed = rw (a, u, e, c, finalise_success) at done in
                  rw (a, u, e, c, finalise_success)
                    (
                      next,
                      rw (schedule_of_row id run_id db.jobs s j e found) c,
                      commit_success-IsCommitted next p q found same aligned committed,
                    )
              | inr (failure, c) ↦ absurd (rw (a, u, e, c, finalise_success) at done)
            ]
          ]
        ]
      ]
