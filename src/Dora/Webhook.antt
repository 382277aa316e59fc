-- ===== src/Dora/Webhook.antt =====
-- `IngestWebhook`, `failWithDeadLetter`, `writeDeadLetter` and `NewDoraHandler`
-- (internal/transport/http/dora_handler.go). The recorder of metrics is left out.
pub mod Outcome
pub mod Registry
pub mod Laws
pub mod Redelivery
use release_engine.Prelude.{
  ℕ, String, Bool, true, false, not, ◌||◌, Option, none, some, List, [], ◌∷◌, ◌++◌, ◌==◌,
  if◌then◌else◌, Dict, trim_space, Result, ok, err,
}
use release_engine.Dora.Events.{
  DoraEvent, FoldLibrary, Normalizer, provider_key, resolve_normalizer, register_normalizer,
  validate_event,
}
use release_engine.Dora.Providers.Commits.{CommitLibrary, github_normalizer, gitlab_normalizer}
use release_engine.Dora.Providers.Incidents.{
  IncidentLibrary, opsgenie_normalizer, datadog_normalizer,
}
use release_engine.Dora.Headers.{HeaderLibrary, header_maps}
use release_engine.Dora.Store.{
  DoraTables, LetterRow, Statements, InsertError, unmarshalled, refused_insert, insert_loop,
}

-- The first event that `ValidateEvent` refuses.
abbrev pub first_invalid : List DoraEvent → Option String
first_invalid [] = none
first_invalid (e ∷ es) = elim (validate_event e) [ some why ↦ some why | none ↦ first_invalid es ]

-- The four `Register` of `NewDoraHandler`; `none` is a panic.
unfoldable pub new_dora_registry :
    {Body : Type 0}
    → FoldLibrary
    → CommitLibrary Body
    → IncidentLibrary Body
    → Option (Dict (Normalizer Body))
new_dora_registry folds commits incidents =
    elim (register_normalizer folds (github_normalizer commits) []) [
      | none ↦ none
      | some r1 ↦ elim (register_normalizer folds (gitlab_normalizer commits) r1) [
        | none ↦ none
        | some r2 ↦ elim (register_normalizer folds (opsgenie_normalizer incidents) r2) [
          | none ↦ none
          | some r3 ↦ register_normalizer folds (datadog_normalizer incidents) r3
        ]
      ]
    ]

-- `pool` is whether the handler has one; then the two acquisitions, the insert of a dead letter with
-- its id, and the readings of the clock of the normalizers.
pub record Backend : Type 0 where
  pub pool : Bool
  pub acquires : Bool
  pub acquires_letter : Bool
  pub letter_fault : Bool
  pub letter_id : String
  pub clock : ℕ → ℕ
  pub statements : Statements

-- The request: the path's and the query's values, the body where it can be read, and the headers.
pub record WebhookRequest (Body : Type 0) : Type 0 where
  pub provider : String
  pub tenant_id : String
  pub service_ref : String
  pub body : Option Body
  pub headers : Dict (List String)

-- The answers 400, 200 with `processed`, and 200 without it: the code, the detail and the dead letter.
pub data WebhookReply : Type 0 where
  bad_request : String → WebhookReply
  processed : ℕ → WebhookReply
  unprocessed : String → String → Option String → WebhookReply

module _ {Body : Type 0} (folds : FoldLibrary) (lib : HeaderLibrary)
    (registry : Dict (Normalizer Body)) (b : Backend) where
  -- The row of a dead letter.
  unfoldable pub dead_letter :
      (tenant_id provider code detail : String)
      → HeaderLibrary.Stored lib
      → Body
      → LetterRow (HeaderLibrary.Stored lib) Body
  dead_letter tenant_id provider code detail headers body = record {
    id = b.letter_id;
    tenant_id = tenant_id;
    provider = provider;
    source_event_id = none;
    headers = headers;
    body = body;
    failure_reason = (code, detail);
    created_at = b.statements.now;
    replayed_at = none;
    replay_job_id = none;
  }

  -- `none` is the empty id.
  unfoldable pub write_dead_letter :
      (tenant_id provider code detail : String)
      → HeaderLibrary.Stored lib
      → Body
      → DoraTables (HeaderLibrary.Stored lib) Body
      → DoraTables (HeaderLibrary.Stored lib) Body × Option String
  unfolding dead_letter
  write_dead_letter tenant_id provider code detail headers body t =
      if not b.pool || not b.acquires_letter || b.letter_fault then (t, none) else (
        record t {
          letters = t.letters ++ dead_letter tenant_id provider code detail headers body ∷ [];
        },
        some b.letter_id,
      )

  unfoldable pub fail_with_dead_letter :
      (tenant_id provider code detail : String)
      → HeaderLibrary.Stored lib
      → Body
      → DoraTables (HeaderLibrary.Stored lib) Body
      → DoraTables (HeaderLibrary.Stored lib) Body × WebhookReply
  unfolding write_dead_letter
  fail_with_dead_letter tenant_id provider code detail headers body t =
      let (t', id) = write_dead_letter tenant_id provider code detail headers body t in
      elim id [
        | none ↦ (t', unprocessed "store_error" detail none)
        | some i ↦ (t', unprocessed code detail (some i))
      ]

  -- From the events on.
  unfoldable pub store_events :
      (tenant_id provider : String)
      → HeaderLibrary.Stored lib
      → Body
      → List DoraEvent
      → DoraTables (HeaderLibrary.Stored lib) Body
      → DoraTables (HeaderLibrary.Stored lib) Body × WebhookReply
  unfolding fail_with_dead_letter
  store_events tenant_id provider headers body [] t = (t, processed 0)
  store_events tenant_id provider headers body (e ∷ es) t =
      if not b.pool || not b.acquires
      then fail_with_dead_letter tenant_id provider "store_error" "database unavailable" headers
          body t
      else let (rows, done) = insert_loop b.statements 0 (e ∷ es) 0 t.events in
        let t' = record t { events = rows } in
        elim done [
          | ok written ↦ (t', processed written)
          | err (unmarshalled why) ↦
              fail_with_dead_letter tenant_id provider "validation_error" why headers body t'
          | err (refused_insert why) ↦
              fail_with_dead_letter tenant_id provider "store_error" why headers body t'
        ]

  -- The events of a webhook, or the code and the detail of its dead letter.
  unfoldable pub webhook_events :
      (provider tenant_id service_ref : String)
      → Dict String
      → Body
      → Result (String × String) (List DoraEvent)
  webhook_events provider tenant_id service_ref headers body =
      elim (resolve_normalizer folds provider registry) [
        | none ↦ err ("normalizer_not_found", "no normalizer registered for provider")
        | some n ↦ elim (n.normalize b.clock tenant_id service_ref headers body) [
          | err why ↦ err ("normalizer_error", why)
          | ok events ↦ elim (first_invalid events) [
            | some why ↦ err ("validation_error", why)
            | none ↦ ok events
          ]
        ]
      ]

  -- From the body on.
  unfoldable pub process_webhook :
      (provider tenant_id service_ref : String)
      → Dict (List String)
      → Body
      → DoraTables (HeaderLibrary.Stored lib) Body
      → DoraTables (HeaderLibrary.Stored lib) Body × WebhookReply
  unfolding fail_with_dead_letter store_events webhook_events
  process_webhook provider tenant_id service_ref headers body t =
      let (multi, flat) = header_maps folds headers in
      let stored = lib.encode multi in
      elim (webhook_events provider tenant_id service_ref flat body) [
        | err (code, detail) ↦ fail_with_dead_letter tenant_id provider code detail stored body t
        | ok events ↦ store_events tenant_id provider stored body events t
      ]

  unfoldable pub ingest_webhook :
      WebhookRequest Body
      → DoraTables (HeaderLibrary.Stored lib) Body
      → DoraTables (HeaderLibrary.Stored lib) Body × WebhookReply
  unfolding process_webhook
  ingest_webhook req t =
      let provider = provider_key folds req.provider in
      let tenant_id = trim_space req.tenant_id in
      let service_ref = trim_space req.service_ref in
      if provider == "" || tenant_id == "" || service_ref == ""
      then (t, bad_request "provider, tenant_id and service_ref are required")
      else elim req.body [
        | none ↦ (t, bad_request "could not read request body")
        | some body ↦ process_webhook provider tenant_id service_ref req.headers body t
      ]
