-- ===== src/Jobs/Claim/Laws.antt =====
-- What one claiming statement takes, and what it leaves to the next.
use mathlib.Core.List.{Memᴰ}
use mathlib.Core.Path.{subst}
use mathlib.Core.Option
use release_engine.Prelude.{
  ap, ◌∙◌, mem_of_map, ◌≢◌, All-map, All_mem, ℕ, String, ◌+◌, ◌<◌, ◌≡◌, refl, ◌⊎◌, inl, inr, Bool,
  true, false, List, [], ◌∷◌, map, eq_refl, arith, Bool-cases, All, take-Sorted, mem_of_take,
  mem-sort, mem_of_sort, sort-Sorted, length, Dict, AllEntries,
}
use release_engine.Jobs.Table.{Job, StepRow, Db, seconds}
use release_engine.Jobs.Claim.{
  claim, is_running, is_runnable, claims_before, runnable_jobs, picked, claim_limit, claimed,
  is_picked, claim_rows, lease_seconds,
}
use release_engine.Jobs.Claim.Order.{claims_before-IsTotal, claims_before-IsTransitive}

-- Each row is filed under its primary key.
abbrev pub IsKeyed : Dict Job → Type 0
IsKeyed = AllEntries (λ k j. j.id ≡ k)

runnable_All :
    (now : ℕ) (locked : String → Bool) (steps : List StepRow) (m : Dict Job)
    → All
        (λ j. (is_runnable now steps j ≡ true) × (locked j.id ≡ false))
        (runnable_jobs now locked steps m)
unfolding runnable_jobs
runnable_All now locked steps [] = tt
runnable_All now locked steps ((id, j) ∷ m) = ground (arith, runnable_All now locked steps m)

module _ (now : ℕ) (locked : String → Bool) (fresh : String → String) (db : Db) where
  rows : List Job
  rows = picked now locked db

  picked_runnable : (j : Job) → Memᴰ j rows → Memᴰ j (runnable_jobs now locked db.steps db.jobs)
  unfolding rows picked
  picked_runnable j m = mem_of_sort claims_before j _ (mem_of_take claim_limit _ j m)

  -- A row is claimed only if it may be claimed and no other transaction holds it.
  picked_allowed :
      (j : Job) → Memᴰ j rows → (is_runnable now db.steps j ≡ true) × (locked j.id ≡ false)
  picked_allowed j m =
      All_mem (λ j. (is_runnable now db.steps j ≡ true) × (locked j.id ≡ false)) _ j
        (runnable_All now locked db.steps db.jobs) (picked_runnable j m)

  running_first :
      (i j : Job) → claims_before i j ≡ true → is_running j.state ≡ true → is_running i.state ≡ true
  unfolding claims_before
  running_first i j h r = ground arith

  -- A runnable row that no other transaction holds is claimed, or ten rows are claimed which all
  -- come no later than it in the order of the claim, and all of which are running if it is.
  pub claim_priority :
      (j : Job)
      → Memᴰ j (runnable_jobs now locked db.steps db.jobs)
      → Memᴰ j (picked now locked db)
        ⊎ ((length (picked now locked db) ≡ claim_limit)
            × All (λ i. claims_before i j ≡ true) (picked now locked db)
            × (is_running j.state ≡ true
                → All (λ i. is_running i.state ≡ true) (picked now locked db)))
  unfolding picked
  claim_priority j m = split (
      take-Sorted claims_before claim_limit _ j
        (sort-Sorted claims_before claims_before-IsTotal claims_before-IsTransitive _)
        (mem-sort claims_before j _ m))
    where
      split :
          Memᴰ j (picked now locked db)
            ⊎ (All (λ i. claims_before i j ≡ true) (picked now locked db)
                × (length (picked now locked db) ≡ claim_limit))
          → Memᴰ j (picked now locked db)
            ⊎ ((length (picked now locked db) ≡ claim_limit)
                × All (λ i. claims_before i j ≡ true) (picked now locked db)
                × (is_running j.state ≡ true
                    → All (λ i. is_running i.state ≡ true) (picked now locked db)))
      split (inl m) = inl m
      split (inr (all, len)) = inr (
        len,
        all,
        λ r.
            All-map (λ i. claims_before i j ≡ true) (λ i. is_running i.state ≡ true)
              (λ i h. running_first i j h r) _ all,
      )

  returned_picked :
      (xs : List Job) (p : String × String)
      → Memᴰ p (map (λ j. (j.id, fresh j.id)) xs)
      → (is_picked xs p.0 ≡ true) × (p.1 ≡ fresh p.0)
  unfolding is_picked
  returned_picked [] p m = elim m [ ]
  returned_picked (x ∷ xs) p (Memᴰ.head e) = rw e (rw eq_refl refl, refl)
  returned_picked (x ∷ xs) p (Memᴰ.tail m) = ground (arith, returned_picked xs p m)

  -- Until its lease runs out, a claimed row cannot be claimed again.
  claimed_held :
      (later : ℕ) (steps : List StepRow) (j : Job)
      → later < now + seconds lease_seconds
      → is_runnable later steps (claimed now fresh j) ≡ false
  unfolding is_runnable claimed
  claimed_held later steps j h = ground arith

  still_free :
      (later : ℕ) (locked' : String → Bool) (steps : List StepRow) (xs : List Job) (m : Dict Job)
      → later < now + seconds lease_seconds
      → All
          (λ j. is_picked xs j.id ≡ false)
          (runnable_jobs later locked' steps (claim_rows now fresh xs m))
  unfolding runnable_jobs claim_rows
  still_free later locked' steps xs [] h = tt
  still_free later locked' steps xs ((id, j) ∷ m) h =
      let rest = still_free later locked' steps xs m h in
      elim (Bool-cases (is_picked xs j.id)) [
        | inl e ↦ rw (e, claimed_held later steps j h) rest
        | inr e ↦ rw e (ground (arith, e, rest))
      ]

  -- The rows that a later claim takes are none of `xs`, which an earlier one claimed.
  later_picked :
      (later : ℕ) (locked' : String → Bool) (steps : List StepRow) (xs : List Job) (j : Job)
      → later < now + seconds lease_seconds
      → Memᴰ j (
          picked later locked'
            (record db { jobs = claim_rows now fresh xs db.jobs; steps = steps }))
      → is_picked xs j.id ≡ false
  unfolding picked
  later_picked later locked' steps xs j h m =
      All_mem (λ j. is_picked xs j.id ≡ false) _ j (still_free later locked' steps xs db.jobs h)
        (mem_of_sort claims_before j _ (mem_of_take claim_limit _ j m))

  -- Two claims in a row, the second at an instant before the leases of the first run out, return
  -- no job in common, whatever happens to the row locks and to `steps` between them.
  pub claim_exclusive :
      (later : ℕ) (locked' : String → Bool) (fresh' : String → String) (steps : List StepRow)
      (p q : String × String)
      → later < now + seconds lease_seconds
      → Memᴰ p (claim now locked fresh db).1
      → Memᴰ q
          (claim later locked' fresh'
            (let db' = (claim now locked fresh db).0 in record db' { steps = steps })).1
      → p.0 ≢ q.0
  unfolding claim
  claim_exclusive later locked' fresh' steps p q h m m' same =
      let (j, at_j, e) = mem_of_map (λ j. (j.id, fresh' j.id)) _ q m' in
      let free = later_picked later locked' steps (picked now locked db) j h at_j in
      let held = (returned_picked (picked now locked db) p m).0 in
      let id : p.0 ≡ j.id = same ∙ ap (λ (r : String × String). r.0) e in
      cc (subst (λ k. is_picked (picked now locked db) k ≡ true) id held)
