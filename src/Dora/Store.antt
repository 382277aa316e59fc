-- ===== src/Dora/Store.antt =====
-- The tables `dora_events` and `dora_webhook_dead_letter` (internal/db/schema.go) and the statements
-- that internal/transport/http/dora_handler.go sends them.
pub mod Laws
pub mod Stored
use release_engine.Prelude.{
  ℕ, suc, String, Bool, true, false, ◌&&◌, ◌||◌, Option, none, some, List, [], ◌∷◌, ◌++◌, ◌==◌, any,
  if◌then◌else◌, Dict, trim_space, Result, ok, err,
}
use release_engine.Dora.Events.{is_deployment, DoraEvent, is_event_type}

-- `payload` is the text of the jsonb.
pub record EventRow : Type 0 where
  pub id : String
  pub tenant_id : String
  pub event_type : String
  pub event_source : String
  pub service_ref : Option String
  pub environment : Option String
  pub correlation_key : Option String
  pub source_event_id : Option String
  pub event_timestamp : ℕ
  pub ingested_at : ℕ
  pub payload : String

-- `failure_reason` is what the text decodes to: `error_code` and `error_detail`.
pub record LetterRow (Stored Body : Type 0) : Type 0 where
  pub id : String
  pub tenant_id : String
  pub provider : String
  pub source_event_id : Option String
  pub headers : Stored
  pub body : Body
  pub failure_reason : String × String
  pub created_at : ℕ
  pub replayed_at : Option ℕ
  pub replay_job_id : Option String

pub record DoraTables (Stored Body : Type 0) : Type 0 where
  pub events : List EventRow
  pub letters : List (LetterRow Stored Body)

-- `a = b` in SQL.
abbrev pub sql_equal : Option String → Option String → Bool
sql_equal none other = false
sql_equal (some a) none = false
sql_equal (some a) (some b) = a == b

-- The two rows break a unique index: of the keys, of the source events, or of the deployments.
unfoldable pub collides : EventRow → EventRow → Bool
collides new old =
    new.id == old.id
    || (new.tenant_id == old.tenant_id
        && new.event_source == old.event_source
        && sql_equal new.source_event_id old.source_event_id)
    || (new.tenant_id == old.tenant_id
        && sql_equal new.service_ref old.service_ref
        && sql_equal new.environment old.environment
        && new.event_type == old.event_type
        && sql_equal new.correlation_key old.correlation_key
        && is_deployment new.event_type)

-- What a handler's statements depend on: the faults of the statements and their texts, the uuids that
-- the inserts draw by number, the database's clock, and what `json.Marshal` makes of a payload.
pub record Statements : Type 0 where
  pub fault : ℕ → Option String
  pub fresh : ℕ → String
  pub check_violation : String
  pub now : ℕ
  pub marshal : Dict String → Result String String

-- `nullableString`
abbrev pub nullable_string : String → Option String
nullable_string v = let trimmed = trim_space v in if trimmed == "" then none else some trimmed

-- Why a loop of inserts stopped: the payload or a statement, with the error's text.
pub data InsertError : Type 0 where
  unmarshalled refused_insert : String → InsertError

module _ (db : Statements) where
  unfoldable pub event_row : ℕ → DoraEvent → String → EventRow
  event_row i e payload = record {
    id = db.fresh i;
    tenant_id = e.tenant_id;
    event_type = e.event_type;
    event_source = e.event_source;
    service_ref = some e.service_ref;
    environment = some e.environment;
    correlation_key = some e.correlation_key;
    source_event_id = nullable_string e.source_event_id;
    event_timestamp = e.event_timestamp;
    ingested_at = db.now;
    payload = payload;
  }

  -- INSERT … ON CONFLICT DO NOTHING, the statement number `i`, under the CHECK on the type.
  unfoldable pub insert_event :
      ℕ → DoraEvent → String → List EventRow → Result String (List EventRow)
  unfolding event_row
  insert_event i e payload rows = elim (db.fault i) [
    | some why ↦ err why
    | none ↦
        let row = event_row i e payload in
        if is_event_type e.event_type
        then ok (if any (collides row) rows then rows else rows ++ row ∷ [])
        else err db.check_violation
  ]

  -- `payload := "{}"`, or the text of the payload.
  unfoldable pub payload_of : DoraEvent → Result String String
  payload_of e = elim e.payload [ none ↦ ok "{}" | some p ↦ db.marshal p ]

  -- The loop over the events, from the statement number `i` on.
  unfoldable pub insert_loop :
      ℕ → List DoraEvent → ℕ → List EventRow → List EventRow × Result InsertError ℕ
  unfolding insert_event payload_of
  insert_loop i [] written rows = (rows, ok written)
  insert_loop i (e ∷ es) written rows = elim (payload_of e) [
    | err why ↦ (rows, err (unmarshalled why))
    | ok payload ↦ elim (insert_event i e payload rows) [
      | err why ↦ (rows, err (refused_insert why))
      | ok rows' ↦ insert_loop (suc i) es (suc written) rows'
    ]
  ]
