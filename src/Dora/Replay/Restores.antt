-- ===== src/Dora/Replay/Restores.antt =====
-- Replayed letters give the events of the webhooks.
use release_engine.Prelude.{
  ◌⊎◌, ap, ◌∙◌, String, true, false, ◌≡◌, ◌||◌, not, refl, some, List, [], ◌∷◌, ◌++◌, ◌==◌, Dict,
  AllEntries, AllEntries-lookup, trim_space, ok, Option-cases, Result-cases, inl, inr,
}
use release_engine.Dora.Events.{
  DoraEvent, FoldLibrary, Normalizer, provider_key, resolve_normalizer,
}
use release_engine.Dora.Providers.Faithful.{IsFaithful, Alike}
use release_engine.Dora.Headers.{HeaderLibrary, header_maps, parse_stored_headers}
use release_engine.Dora.Headers.Laws.{IsCodec, AllPlain, parse_stored_headers-header_maps}
use release_engine.Dora.Store.{insert_loop, DoraTables, EventRow}
use release_engine.Dora.Webhook.{
  webhook_events, Backend, WebhookRequest, ingest_webhook, process_webhook, store_events,
  dead_letter, fail_with_dead_letter, first_invalid,
}
use release_engine.Dora.Admission.{DoraCaller}
use release_engine.Dora.Replay.{
  letter_events, replay_letter, insert_loop, ReplayRequest, ReplayBackend, replay_dead_letter,
}
use release_engine.Dora.Replay.Letters.{
  replay_letter-events, find_letter-append, find_letter-new, replay_letter-none,
  fail_with_dead_letter_down, IsNewLetter, IsDown,
}
use release_engine.Dora.Webhook.Outcome.{process_webhook-events, inserted}
use release_engine.Dora.Replay.Laws.{replay_dead_letter_lem}

module _ {Body : Type 0} (folds : FoldLibrary) (lib : HeaderLibrary)
    (registry : Dict (Normalizer Body)) where
  -- The replay of a webhook's letter decides as the webhook did.
  letter_events-webhook_events :
      (w : Backend) (b : ReplayBackend) (provider tenant_id service_ref code detail : String)
      (read : Dict String) (headers : Dict (List String)) (body : Body) (rows : List EventRow)
      → AllEntries (λ name n. IsFaithful n) registry
      → (service_ref == "") ≡ false
      → w.clock ≡ b.backend.clock
      → parse_stored_headers folds lib (lib.encode (header_maps folds headers).0) ≡ ok read
      → Alike read (header_maps folds headers).1
      → inserted b.backend.statements
          (letter_events folds lib registry b tenant_id service_ref (
            dead_letter folds lib registry w tenant_id provider code detail
              (lib.encode (header_maps folds headers).0)
              body))
          rows
        ≡ inserted b.backend.statements
            (webhook_events folds lib registry w provider tenant_id service_ref
              (header_maps folds headers).1
              body)
            rows
  unfolding letter_events webhook_events dead_letter resolve_normalizer
  letter_events-webhook_events w b provider tenant_id service_ref code detail read headers body rows
        faithful named clocks parsed alike =
      let flat = (header_maps folds headers).1 in
      elim (Option-cases (resolve_normalizer folds provider registry)) [
        | inl missing ↦ rw (parsed, missing, letter_events, webhook_events) refl
        | inr (n, found) ↦
            let good = AllEntries-lookup _ _ _ _ faithful found in
            let same = good.reads b.backend.clock tenant_id service_ref read flat body alike in
            elim (Result-cases (n.normalize b.backend.clock tenant_id service_ref flat body)) [
              | inr (why, e) ↦
                  rw (parsed, found, named, clocks, same, e, letter_events, webhook_events) refl
              | inl (es, e) ↦ elim (Option-cases (first_invalid es)) [
                | inr (why, bad) ↦
                    rw (parsed, found, named, clocks, same, e, bad, letter_events, webhook_events)
                      refl
                | inl valid ↦
                    rw (parsed, found, named, clocks, same, e, valid, letter_events, webhook_events)
                      refl
              ]
            ]
      ]

  webhook_events_clock :
      (w v : Backend) (provider tenant_id service_ref : String) (headers : Dict String)
      (body : Body)
      → w.clock ≡ v.clock
      → webhook_events folds lib registry w provider tenant_id service_ref headers body
        ≡ webhook_events folds lib registry v provider tenant_id service_ref headers body
  unfolding webhook_events
  webhook_events_clock w v provider tenant_id service_ref headers body clocks = rw clocks refl

  module _ (w : Backend) (provider tenant_id service_ref : String) (headers : Dict (List String))
      (body : Body) (t : DoraTables (HeaderLibrary.Stored lib) Body) (down : IsDown w) where
    store_events_down :
        (e : DoraEvent) (es : List DoraEvent) (stored : HeaderLibrary.Stored lib)
        → store_events folds lib registry w tenant_id provider stored body (e ∷ es) t
          ≡ fail_with_dead_letter folds lib registry w tenant_id provider "store_error"
              "database unavailable" stored body t
    unfolding store_events
    store_events_down e es stored =
        let closed : (not w.pool || not w.acquires) ≡ true =
          let (p, a, al, f) = down in rw (p, a) refl in
        rw (closed, store_events) refl

    -- A webhook that finds the database down has no events, or leaves its letter.
    down_cases :
        (((process_webhook folds lib registry w provider tenant_id service_ref headers body t).0
            ≡ t)
          × (webhook_events folds lib registry w provider tenant_id service_ref
                (header_maps folds headers).1
                body
              ≡ ok []))
        ⊎ ((code : String) × (detail : String) × ((process_webhook folds lib registry w provider
                tenant_id service_ref headers body t).0
              ≡ record t {
                letters =
                    t.letters
                    ++ dead_letter folds lib registry w tenant_id provider code detail
                        (lib.encode (header_maps folds headers).0)
                        body
                      ∷ [];
              }))
    unfolding process_webhook store_events
    down_cases =
        let stored = lib.encode (header_maps folds headers).0 in
        elim (Result-cases (
          webhook_events folds lib registry w provider tenant_id service_ref
            (header_maps folds headers).1 body)) [
              | inr ((code, detail), e) ↦ inr (
                code,
                detail,
                rw (e, process_webhook)
                    (fail_with_dead_letter_down folds lib registry w tenant_id provider code detail
                      stored body t down),
              )
              | inl ([], e) ↦ inl (rw (e, process_webhook, store_events) refl, e)
              | inl (ev ∷ es, e) ↦ inr (
                "store_error",
                "database unavailable",
                rw (e, process_webhook, store_events_down ev es stored)
                    (fail_with_dead_letter_down folds lib registry w tenant_id provider
                      "store_error" "database unavailable" stored body t down),
              )
            ]

    replay_letter-process_webhook :
        (b : ReplayBackend)
        → AllEntries (λ name n. IsFaithful n) registry
        → IsCodec lib
        → AllPlain folds headers
        → b.backend.pool ≡ true
        → b.backend.acquires ≡ true
        → b.select_fails ≡ false
        → w.clock ≡ b.backend.clock
        → (service_ref == "") ≡ false
        → IsNewLetter w.letter_id t.letters
        → (replay_letter folds lib registry b w.letter_id tenant_id service_ref
            (process_webhook folds lib registry w provider tenant_id service_ref headers body
              t).0).0.events
          ≡ (process_webhook folds lib registry b.backend provider tenant_id service_ref headers
              body t).0.events
    unfolding dead_letter insert_loop
    replay_letter-process_webhook b faithful codec plain p a s clocks named new =
        let at_once =
          process_webhook-events folds lib registry b.backend provider tenant_id service_ref headers
            body t p a in
        let decides =
          webhook_events_clock w b.backend provider tenant_id service_ref
            (header_maps folds headers).1 body clocks in
        elim down_cases [
          | inl (kept, e) ↦
              rw (kept, at_once, ← decides, e)
                (replay_letter-none folds lib registry b w.letter_id tenant_id service_ref t p a s
                  (find_letter-new folds lib registry w.letter_id tenant_id t.letters new))
          | inr (code, detail, left) ↦
              let (read, parsed, alike) =
                parse_stored_headers-header_maps folds lib headers codec plain in
              let letter =
                dead_letter folds lib registry w tenant_id provider code detail
                  (lib.encode (header_maps folds headers).0) body in
              let there =
                find_letter-append folds lib registry w.letter_id tenant_id t.letters letter new
                  refl refl in
              rw (left, at_once, ← decides)
                (replay_letter-events folds lib registry b w.letter_id tenant_id service_ref
                    (record t { letters = t.letters ++ letter ∷ [] }) letter p a s there refl
                  ∙ letter_events-webhook_events w b provider tenant_id service_ref code detail read
                      headers body t.events faithful named clocks parsed alike)
        ]

  -- The request is complete, and its letter will be the only one with the id that the replay names.
  pub record IsReplayOf (w : Backend) (req : WebhookRequest Body) (body : Body)
      (again : ReplayRequest) (t : DoraTables (HeaderLibrary.Stored lib) Body) : Type 0 where
    pub provider : (provider_key folds req.provider == "") ≡ false
    pub tenant : (trim_space req.tenant_id == "") ≡ false
    pub service : (trim_space req.service_ref == "") ≡ false
    pub body_read : req.body ≡ some body
    pub id : trim_space again.id ≡ w.letter_id
    pub id_given : (w.letter_id == "") ≡ false
    pub same_tenant : again.tenant_id ≡ req.tenant_id
    pub same_service : again.service_ref ≡ req.service_ref
    pub new_letter : IsNewLetter w.letter_id t.letters

  -- With faithful normalizers, and headers that have values and plain names and that JSON gives back:
  -- a complete webhook that finds the database down but for its dead letter, and whose letter, the
  -- only one with its id, is replayed for the same tenant and service with the same readings of the
  -- clock when the database works again, leaves the events that it would have left at once.
  pub replay_dead_letter-ingest_webhook :
      (w : Backend) (b : ReplayBackend) (caller : DoraCaller) (req : WebhookRequest Body)
      (body : Body) (again : ReplayRequest) (t : DoraTables (HeaderLibrary.Stored lib) Body)
      → AllEntries (λ name n. IsFaithful n) registry
      → IsCodec lib
      → AllPlain folds req.headers
      → IsDown w
      → b.backend.pool ≡ true
      → b.backend.acquires ≡ true
      → b.select_fails ≡ false
      → w.clock ≡ b.backend.clock
      → IsReplayOf w req body again t
      → (replay_dead_letter folds lib registry b false caller again
          (ingest_webhook folds lib registry w req t).0).0.events
        ≡ (ingest_webhook folds lib registry b.backend req t).0.events
  unfolding ingest_webhook
  replay_dead_letter-ingest_webhook w b caller req body again t faithful codec plain down p a s
        clocks r =
      let named : (provider_key folds req.provider == ""
            || trim_space req.tenant_id == ""
            || trim_space req.service_ref == "")
          ≡ false =
        rw (r.provider, r.tenant, r.service) refl in
      let asked : (trim_space again.id == "" || trim_space again.tenant_id == "") ≡ false =
        rw (r.id, r.id_given, r.same_tenant, r.tenant) refl in
      ap (λ (u : DoraTables (HeaderLibrary.Stored lib) Body). u.events)
        (replay_dead_letter_lem folds lib registry b caller again
          (ingest_webhook folds lib registry w req t).0)
      ∙ rw (asked, named, r.body_read, r.id, r.same_tenant, r.same_service, ingest_webhook)
          (replay_letter-process_webhook w (provider_key folds req.provider)
            (trim_space req.tenant_id) (trim_space req.service_ref) req.headers body t down b
            faithful codec plain p a s clocks r.service r.new_letter)
