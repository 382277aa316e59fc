-- ===== src/Dora/Replay.antt =====
-- `ReplayDeadLetter` (internal/transport/http/dora_handler.go). The handlers' answers are listed in the
-- order in which they are written; the first one sets the status.
pub mod Laws
pub mod Letters
pub mod Restores
use release_engine.Prelude.{
  ℕ, String, Bool, true, false, not, ◌&&◌, ◌||◌, Option, none, some, List, [], ◌∷◌, ◌++◌, ◌==◌,
  if◌then◌else◌, Dict, is_some, trim_space, Result, ok, err,
}
use release_engine.Dora.Events.{DoraEvent, FoldLibrary, Normalizer, resolve_normalizer}
use release_engine.Dora.Headers.{HeaderLibrary, parse_stored_headers}
use release_engine.Dora.Store.{
  DoraTables, LetterRow, EventRow, InsertError, unmarshalled, refused_insert, insert_loop,
}
use release_engine.Dora.Webhook.{Backend, first_invalid}
use release_engine.Dora.Admission.{DoraCaller, Denial, authorize, stops}

-- WHERE id::text = $1 AND tenant_id = $2
abbrev pub is_letter : {Stored Body : Type 0} → String → String → LetterRow Stored Body → Bool
is_letter id tenant_id r = r.id == id && r.tenant_id == tenant_id

unfoldable pub find_letter :
    {Stored Body : Type 0}
    → String
    → String
    → List (LetterRow Stored Body)
    → Option (LetterRow Stored Body)
find_letter id tenant_id [] = none
find_letter id tenant_id (r ∷ rs) =
    let rest = find_letter id tenant_id rs in if is_letter id tenant_id r then some r else rest

-- COALESCE
abbrev pub or_new : Option String → String → String
or_new none new = new
or_new (some old) new = old

-- The UPDATE on one row.
abbrev pub marked :
    {Stored Body : Type 0} → ℕ → String → LetterRow Stored Body → LetterRow Stored Body
marked now job_id r = record r {
  replayed_at = some now;
  replay_job_id = some (or_new r.replay_job_id job_id);
}

abbrev pub is_open_letter : {Stored Body : Type 0} → String → String → LetterRow Stored Body → Bool
is_open_letter id tenant_id r = is_letter id tenant_id r && not (is_some r.replayed_at)

-- The UPDATE with the job id that it returns, which is the first row's.
unfoldable pub mark_replayed :
    {Stored Body : Type 0}
    → ℕ
    → (job_id id tenant_id : String) → List (LetterRow Stored Body)
    → List (LetterRow Stored Body) × Option String
mark_replayed now job_id id tenant_id [] = ([], none)
mark_replayed now job_id id tenant_id (r ∷ rs) =
    let (rest, returned) = mark_replayed now job_id id tenant_id rs in
    if is_open_letter id tenant_id r
    then (marked now job_id r ∷ rest, some (or_new r.replay_job_id job_id))
    else (r ∷ rest, returned)

pub data ReplayAnswer : Type 0 where
  refused_replay : ℕ → String → ReplayAnswer
  replayed_letter : (job_id : String) (events_written : ℕ) → ReplayAnswer

pub record ReplayRequest : Type 0 where
  pub id : String
  pub tenant_id : String
  pub service_ref : String

-- What `authorize` wrote.
abbrev pub denials : Option Denial → List ReplayAnswer
denials none = []
denials (some (status, code)) = refused_replay status code ∷ []

-- The pool's answers and the clocks as for a webhook, with the faults of the SELECT and the UPDATE and the
-- uuid of the job.
pub record ReplayBackend : Type 0 where
  pub backend : Backend
  pub select_fails : Bool
  pub update_fails : Bool
  pub job_id : String

module _ {Body : Type 0} (folds : FoldLibrary) (lib : HeaderLibrary)
    (registry : Dict (Normalizer Body)) (b : ReplayBackend) where
  -- The events of a dead letter, or the answer 422.
  unfoldable pub letter_events :
      (tenant_id service_ref : String)
      → LetterRow (HeaderLibrary.Stored lib) Body
      → Result String (List DoraEvent)
  letter_events tenant_id service_ref r = elim (parse_stored_headers folds lib r.headers) [
    | err why ↦ err "INVALID_REQUEST"
    | ok headers ↦ elim (resolve_normalizer folds r.provider registry) [
      | none ↦ err "NORMALIZER_NOT_FOUND"
      | some n ↦
          let service = if service_ref == "" then "unknown" else service_ref in
          elim (n.normalize b.backend.clock tenant_id service headers r.body) [
            | err why ↦ err "NORMALIZER_ERROR"
            | ok events ↦ elim (first_invalid events) [
              | some why ↦ err "VALIDATION_ERROR"
              | none ↦ ok events
            ]
          ]
    ]
  ]

  -- From the events on.
  unfoldable pub replay_events :
      (id tenant_id : String)
      → List DoraEvent
      → DoraTables (HeaderLibrary.Stored lib) Body
      → DoraTables (HeaderLibrary.Stored lib) Body × ReplayAnswer
  unfolding mark_replayed
  replay_events id tenant_id events t =
      let (rows, done) = insert_loop b.backend.statements 0 events 0 t.events in
      let t' = record t { events = rows } in
      elim done [
        | err (unmarshalled why) ↦ (t', refused_replay 422 "VALIDATION_ERROR")
        | err (refused_insert why) ↦ (t', refused_replay 500 "INTERNAL_ERROR")
        | ok written ↦
            let (letters, returned) =
              mark_replayed b.backend.statements.now b.job_id id tenant_id t.letters in
            if b.update_fails then (t', refused_replay 409 "ALREADY_REPLAYED") else elim returned [
              | none ↦ (t', refused_replay 409 "ALREADY_REPLAYED")
              | some job ↦ (record t' { letters = letters }, replayed_letter job written)
            ]
      ]

  -- From the check of the pool on.
  unfoldable pub replay_letter :
      (id tenant_id service_ref : String)
      → DoraTables (HeaderLibrary.Stored lib) Body
      → DoraTables (HeaderLibrary.Stored lib) Body × ReplayAnswer
  unfolding letter_events replay_events
  replay_letter id tenant_id service_ref t =
      if not b.backend.pool
      then (t, refused_replay 404 "NOT_FOUND")
      else if not b.backend.acquires
      then (t, refused_replay 500 "INTERNAL_ERROR")
      else if b.select_fails
      then (t, refused_replay 404 "NOT_FOUND")
      else elim (find_letter id tenant_id t.letters) [
        | none ↦ (t, refused_replay 404 "NOT_FOUND")
        | some r ↦
            if is_some r.replayed_at
            then (t, refused_replay 409 "ALREADY_REPLAYED")
            else elim (letter_events tenant_id service_ref r) [
              | err code ↦ (t, refused_replay 422 code)
              | ok events ↦ replay_events id tenant_id events t
            ]
      ]

  unfoldable pub replay_dead_letter :
      (write_fails : Bool)
      → DoraCaller
      → ReplayRequest
      → DoraTables (HeaderLibrary.Stored lib) Body
      → DoraTables (HeaderLibrary.Stored lib) Body × List ReplayAnswer
  unfolding replay_letter
  replay_dead_letter write_fails caller req t =
      let id = trim_space req.id in
      let tenant_id = trim_space req.tenant_id in
      let denial = authorize caller tenant_id in
      let denied = denials denial in
      let (t', answer) = replay_letter id tenant_id (trim_space req.service_ref) t in
      if id == "" || tenant_id == ""
      then (t, refused_replay 400 "INVALID_REQUEST" ∷ [])
      else if stops write_fails denial
      then (t, denied)
      else (t', denied ++ answer ∷ [])
