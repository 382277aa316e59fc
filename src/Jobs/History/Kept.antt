-- ===== src/Jobs/History/Kept.antt =====
-- A property of rows that every statement keeps holds of all rows over any sequence of statements.
use release_engine.Prelude.{
  Bool, Option, ℕ, String, ◌≡◌, ◌==◌, inl, inr, List, [], ◌∷◌, All, arith, Bool-cases, Option-cases,
  lookup, Dict, AllEntries, AllEntries-insert, AllEntries-lookup,
}
use release_engine.Jobs.Table.{Job, JobState, Db, fenced_update}
use release_engine.Jobs.Claim.{claim, claim_rows, claimed, is_picked, picked}
use release_engine.Jobs.Lease.{
  acquire_job_lease, finalise_with_fence, fence_set, lease_free, leased,
}
use release_engine.Jobs.History.{
  Event, claims, leases, fences, succeeds, terminates, projects, emits, write_fenced, step, run,
}
use release_engine.Jobs.Finalise.{Faults, sync_read, emit_succeeded, exhaust, success_set}
use release_engine.Jobs.Finalise.Fence.{fenced_update-some}

-- The SET clauses keep the property, where the event is allowed.
pub record IsKept (R : String → Job → Type 0) (Allowed : Event → Type 0) : Type 0 where
  pub on_claim :
      (now : ℕ) (fresh : String → String) (k : String) (j : Job) → R k j → R k (claimed now fresh j)
  pub on_lease :
      (now : ℕ) (run_id owner_id : String) (ttl : ℕ) (k : String) (j : Job)
      → R k j
      → R k (leased now run_id owner_id ttl j)
  pub on_fence :
      (bad : Bool) (now : ℕ) (id run_id : String) (state : JobState)
      → Allowed (fences bad now id run_id state)
      → (j : Job) → R id j
      → R id (fence_set now state j)
  pub on_success :
      (now : ℕ) (id run_id : String) (next : Option ℕ)
      → Allowed (succeeds now id run_id next)
      → (j : Job) → R id j
      → R id (success_set now next j)
  pub on_exhaust : (now : ℕ) (code msg k : String) (j : Job) → R k j → R k (exhaust now code msg j)

jobs-sync_read : (faults : Faults) (id : String) (db : Db) → (sync_read faults id db).jobs ≡ db.jobs
unfolding sync_read
jobs-sync_read faults id db = ground arith

jobs-emit_succeeded :
    (faults : Faults) (now : ℕ) (id : String) (db : Db)
    → (emit_succeeded faults now id db).jobs ≡ db.jobs
unfolding emit_succeeded
jobs-emit_succeeded faults now id db = ground arith

module _ (R : String → Job → Type 0) (Allowed : Event → Type 0) (kept : IsKept R Allowed) where
  claim_rows_keeps :
      (now : ℕ) (fresh : String → String) (xs : List Job) (m : Dict Job)
      → AllEntries R m
      → AllEntries R (claim_rows now fresh xs m)
  unfolding claim_rows
  claim_rows_keeps now fresh xs [] all = tt
  claim_rows_keeps now fresh xs ((k, j) ∷ m) (r, all) =
      let rest = claim_rows_keeps now fresh xs m all in
      elim (Bool-cases (is_picked xs j.id)) [
        | inl e ↦ rw e (kept.on_claim now fresh k j r, rest)
        | inr e ↦ rw e (r, rest)
      ]

  write_fenced_keeps :
      (id run_id : String) (set : Job → Job) (db : Db)
      → ((j : Job) → R id j → R id (set j))
      → AllEntries R db.jobs
      → AllEntries R (write_fenced id run_id set db).jobs
  unfolding write_fenced
  write_fenced_keeps id run_id set db keep all =
      elim (Option-cases (fenced_update id run_id set db.jobs)) [
        | inl e ↦ rw (e, write_fenced) all
        | inr (jobs, e) ↦
            let (j, found, _, _, made) = fenced_update-some id run_id set db.jobs jobs e in
            rw (e, made, write_fenced)
              (AllEntries-insert R id (set j) db.jobs all
                (keep j (AllEntries-lookup R id j db.jobs all found)))
      ]

  lease_keeps :
      (bad : Bool) (now : ℕ) (job_id owner_id run_id : String) (ttl : ℕ) (db : Db)
      → AllEntries R db.jobs
      → AllEntries R (acquire_job_lease bad now job_id owner_id run_id ttl db).0.jobs
  unfolding acquire_job_lease
  lease_keeps bad now job_id owner_id run_id ttl db all = elim (Bool-cases bad) [
    | inl b ↦ rw b all
    | inr b ↦ elim (Option-cases (lookup job_id db.jobs)) [
      | inl e ↦ rw (b, e, acquire_job_lease) all
      | inr (j, e) ↦ elim (Bool-cases (lease_free now j.lease_expires_at)) [
        | inl f ↦
            rw (b, e, f, acquire_job_lease)
              (AllEntries-insert R job_id (leased now run_id owner_id ttl j) db.jobs all (
                kept.on_lease now run_id owner_id ttl job_id j
                  (AllEntries-lookup R job_id j db.jobs all e)))
        | inr f ↦ rw (b, e, f, acquire_job_lease) all
      ]
    ]
  ]

  fence_keeps :
      (bad : Bool) (now : ℕ) (job_id run_id : String) (state : JobState) (db : Db)
      → Allowed (fences bad now job_id run_id state)
      → AllEntries R db.jobs
      → AllEntries R (finalise_with_fence bad now job_id run_id state db).0.jobs
  unfolding finalise_with_fence
  fence_keeps bad now job_id run_id state db allowed all = elim (Bool-cases bad) [
    | inl b ↦ rw b all
    | inr b ↦ elim (Option-cases (lookup job_id db.jobs)) [
      | inl e ↦ rw (b, e, finalise_with_fence) all
      | inr (j, e) ↦ elim (Bool-cases (j.run_id == run_id)) [
        | inl f ↦
            rw (b, e, f, finalise_with_fence)
              (AllEntries-insert R job_id (fence_set now state j) db.jobs all (
                kept.on_fence bad now job_id run_id state allowed j
                  (AllEntries-lookup R job_id j db.jobs all e)))
        | inr f ↦ rw (b, e, f, finalise_with_fence) all
      ]
    ]
  ]

  pub step_keeps :
      (db : Db) (e : Event) → Allowed e → AllEntries R db.jobs → AllEntries R (step db e).jobs
  unfolding step claim
  step_keeps db (claims now locked fresh) c all =
      claim_rows_keeps now fresh (picked now locked db) db.jobs all
  step_keeps db (leases bad now job_id owner_id run_id ttl) c all =
      lease_keeps bad now job_id owner_id run_id ttl db all
  step_keeps db (fences bad now job_id run_id state) c all =
      fence_keeps bad now job_id run_id state db c all
  step_keeps db (succeeds now id run_id next) c all =
      write_fenced_keeps id run_id (success_set now next) db (kept.on_success now id run_id next c)
        all
  step_keeps db (terminates now id run_id code msg) c all =
      write_fenced_keeps id run_id (exhaust now code msg) db (kept.on_exhaust now code msg id) all
  step_keeps db (projects faults id) c all = rw (jobs-sync_read faults id db) all
  step_keeps db (emits faults now id) c all = rw (jobs-emit_succeeded faults now id db) all

  pub run_keeps :
      (db : Db) (es : List Event)
      → All Allowed es
      → AllEntries R db.jobs
      → AllEntries R (run db es).jobs
  unfolding run
  run_keeps db [] allowed all = all
  run_keeps db (e ∷ es) (c, allowed) all = run_keeps (step db e) es allowed (step_keeps db e c all)
