-- ===== src/Dora/Webhook/Redelivery.antt =====
-- A webhook that is delivered twice.
use mathlib.Core.Path.{◌∙◌, subst₂}
use release_engine.Prelude.{
  sym, ◌==◌, trim_space, ℕ, String, ◌≡◌, refl, some, List, [], ◌∷◌, Dict, AllEntries,
  AllEntries-lookup, Result, ok, err, All, map, Bool-cases, Option-cases, Result-cases, inl, inr,
  ◌||◌, not,
}
use release_engine.Dora.Events.{
  provider_key, DoraEvent, FoldLibrary, Normalizer, resolve_normalizer,
}
use release_engine.Dora.Providers.Faithful.{IsFrom, IsFaithful, key_of, keys_of}
use release_engine.Dora.Headers.{header_maps, HeaderLibrary}
use release_engine.Dora.Store.{
  DoraTables, insert_loop, nullable_string, unmarshalled, refused_insert,
}
use release_engine.Dora.Store.Stored.{
  IsStored, insert_loop-again, insert_loop-again, insert_loop-AllStored, IsFresh, IsNamed,
}
use release_engine.Dora.Webhook.{
  WebhookRequest, ingest_webhook, process_webhook, write_dead_letter, first_invalid, processed,
  Backend, webhook_events, store_events, fail_with_dead_letter,
}
use release_engine.Dora.Webhook.Laws.{process_webhook-cases, webhook_events-All}

-- The event names its source event.
abbrev pub HasId : DoraEvent → Type 0
HasId e = (id : String) × (nullable_string e.source_event_id ≡ some id)

abbrev pub AllIdentified : Result (String × String) (List DoraEvent) → Type 0
AllIdentified (ok es) = All HasId es
AllIdentified (err e) = Unit

All-IsNamed :
    (source tenant_id service_ref : String) (es : List DoraEvent)
    → All (IsFrom source tenant_id service_ref) es
    → All HasId es
    → All IsNamed es
All-IsNamed source t s [] from ids = tt
All-IsNamed source t s (e ∷ es) (f, from) (id, ids) =
    ((f.other, id), All-IsNamed source t s es from ids)

module _ {Body : Type 0} (folds : FoldLibrary) (lib : HeaderLibrary)
    (registry : Dict (Normalizer Body)) where
  fail_with_dead_letter-unprocessed :
      (w : Backend) (tenant_id provider code detail : String) (stored : HeaderLibrary.Stored lib)
      (body : Body) (t : DoraTables (HeaderLibrary.Stored lib) Body) (n : ℕ)
      → (fail_with_dead_letter folds lib registry w tenant_id provider code detail stored body t).1
        ≡ processed n
      → ⊥
  unfolding fail_with_dead_letter
  fail_with_dead_letter-unprocessed w tenant_id provider code detail stored body t n done =
      elim (Option-cases
        (write_dead_letter folds lib registry w tenant_id provider code detail stored body t).1) [
          | inl e ↦ let stuck = rw (e, fail_with_dead_letter) at done in absurd cc
          | inr (id, e) ↦ let stuck = rw (e, fail_with_dead_letter) at done in absurd cc
        ]

  store_events-processed :
      (w : Backend) (tenant_id provider : String) (stored : HeaderLibrary.Stored lib) (body : Body)
      (es : List DoraEvent) (t : DoraTables (HeaderLibrary.Stored lib) Body) (n : ℕ)
      → (store_events folds lib registry w tenant_id provider stored body es t).1 ≡ processed n
      → ((store_events folds lib registry w tenant_id provider stored body es t).0.events
          ≡ (insert_loop w.statements 0 es 0 t.events).0)
        × ((insert_loop w.statements 0 es 0 t.events).1 ≡ ok n)
  unfolding store_events insert_loop
  store_events-processed w tenant_id provider stored body [] t n done =
      let same : 0 ≡ n = cc in (refl, rw same refl)
  store_events-processed w tenant_id provider stored body (e ∷ es) t n done =
      elim (Bool-cases (not w.pool || not w.acquires)) [
        | inl down ↦ absurd (
            fail_with_dead_letter-unprocessed w tenant_id provider "store_error"
              "database unavailable" stored body t n (rw (down, store_events) at done))
        | inr up ↦ elim (Result-cases (insert_loop w.statements 0 (e ∷ es) 0 t.events).1) [
          | inr (unmarshalled why, f) ↦ absurd (
              fail_with_dead_letter-unprocessed w tenant_id provider "validation_error" why stored
                body _ n (rw (up, f, store_events) at done))
          | inr (refused_insert why, f) ↦ absurd (
              fail_with_dead_letter-unprocessed w tenant_id provider "store_error" why stored body _
                n (rw (up, f, store_events) at done))
          | inl (written, f) ↦
              let same = rw (up, f, store_events) at done in
              let one : written ≡ n = cc in (rw (up, f, store_events) refl, rw (f, one) refl)
        ]
      ]

  -- The keys of two decisions on one webhook.
  webhook_events-keys :
      (w v : Backend) (provider tenant_id service_ref : String) (headers : Dict String)
      (body : Body) (es fs : List DoraEvent)
      → AllEntries (λ name n. IsFaithful n) registry
      → webhook_events folds lib registry w provider tenant_id service_ref headers body ≡ ok es
      → webhook_events folds lib registry v provider tenant_id service_ref headers body ≡ ok fs
      → map key_of es ≡ map key_of fs
  unfolding webhook_events resolve_normalizer
  webhook_events-keys w v provider tenant_id service_ref headers body es fs faithful one other =
      elim (Option-cases (resolve_normalizer folds provider registry)) [
        | inl missing ↦ let stuck = rw (missing, webhook_events) at one in absurd cc
        | inr (n, found) ↦
            let good = AllEntries-lookup _ _ _ _ faithful found in
            let stable = good.stable w.clock v.clock tenant_id service_ref headers body in
            let a = normalized w provider tenant_id service_ref headers body es n found one in
            let b = normalized v provider tenant_id service_ref headers body fs n found other in
            let same = rw (a, b, keys_of) at stable in cc
      ]
    where
      normalized :
          (u : Backend) (provider tenant_id service_ref : String) (headers : Dict String)
          (body : Body) (gs : List DoraEvent) (n : Normalizer Body)
          → resolve_normalizer folds provider registry ≡ some n
          → webhook_events folds lib registry u provider tenant_id service_ref headers body ≡ ok gs
          → n.normalize u.clock tenant_id service_ref headers body ≡ ok gs
      normalized u provider tenant_id service_ref headers body gs n found done =
          elim (Result-cases (n.normalize u.clock tenant_id service_ref headers body)) [
            | inr (why, e) ↦ let stuck = rw (found, e, webhook_events) at done in absurd cc
            | inl (hs, e) ↦ elim (Option-cases (first_invalid hs)) [
              | inr (why, bad) ↦ let stuck = rw (found, e, bad, webhook_events) at done in absurd cc
              | inl valid ↦
                  let same = rw (found, e, valid, webhook_events) at done in
                  let one : hs ≡ gs = cc in rw (← one) e
            ]
          ]

  process_redelivered :
      (w v : Backend) (provider tenant_id service_ref : String) (headers : Dict (List String))
      (body : Body) (t : DoraTables (HeaderLibrary.Stored lib) Body) (n : ℕ)
      → AllEntries (λ name m. IsFaithful m) registry
      → AllIdentified (
          webhook_events folds lib registry w provider tenant_id service_ref
            (header_maps folds headers).1
            body)
      → IsFresh w.statements 0 t.events
      → (process_webhook folds lib registry w provider tenant_id service_ref headers body t).1
        ≡ processed n
      → let once =
          (process_webhook folds lib registry w provider tenant_id service_ref headers body t).0 in
        (process_webhook folds lib registry v provider tenant_id service_ref headers body
          once).0.events
        ≡ once.events
  unfolding process_webhook
  process_redelivered w v provider tenant_id service_ref headers body t n faithful ids fresh done =
      let flat = (header_maps folds headers).1 in
      let stored = lib.encode (header_maps folds headers).0 in
      let once =
        (process_webhook folds lib registry w provider tenant_id service_ref headers body t).0 in
      elim (Result-cases
        (webhook_events folds lib registry w provider tenant_id service_ref flat body)) [
          | inr ((code, detail), e) ↦ absurd (
              fail_with_dead_letter-unprocessed w tenant_id provider code detail stored body t n
                (rw (e, process_webhook) at done))
          | inl (es, e) ↦
              let (grown, all_in) =
                store_events-processed w tenant_id provider stored body es t n
                  (rw (e, process_webhook) at done) in
              let same : once.events ≡ (insert_loop w.statements 0 es 0 t.events).0 =
                rw (e, process_webhook) grown in
              let (source, from, valid) =
                webhook_events-All folds lib registry w provider tenant_id service_ref flat body es
                  faithful e in
              let (here, more) =
                insert_loop-AllStored w.statements es 0 0 n t.events
                  (All-IsNamed source tenant_id service_ref es from (rw (e, AllIdentified) at ids))
                  fresh all_in in
              elim (process_webhook-cases folds lib registry v provider tenant_id service_ref
                headers body once) [
                  | inl kept ↦ kept
                  | inr (fs, f, again) ↦
                      let keys =
                        webhook_events-keys w v provider tenant_id service_ref flat body es fs
                          faithful e f in
                      again
                      ∙ insert_loop-again v.statements fs 0 0 once.events
                          (subst₂ (λ rows ks. All (IsStored rows) ks) (sym same) keys here)
                ]
        ]

  -- A webhook that is answered as processed is complete, and then any call processes its body.
  ingest_webhook-process :
      (w : Backend) (req : WebhookRequest Body) (t : DoraTables (HeaderLibrary.Stored lib) Body)
      (n : ℕ)
      → (ingest_webhook folds lib registry w req t).1 ≡ processed n
      → (body : Body) × (req.body ≡ some body)
        × ((u : Backend) (s : DoraTables (HeaderLibrary.Stored lib) Body)
            → ingest_webhook folds lib registry u req s
              ≡ process_webhook folds lib registry u
                  (provider_key folds req.provider)
                  (trim_space req.tenant_id)
                  (trim_space req.service_ref)
                  req.headers
                  body
                  s)
  unfolding ingest_webhook
  ingest_webhook-process w req t n done =
      let provider = provider_key folds req.provider in
      let tenant_id = trim_space req.tenant_id in
      let service_ref = trim_space req.service_ref in
      elim (Bool-cases (provider == "" || tenant_id == "" || service_ref == "")) [
        | inl blank ↦ let stuck = rw (blank, ingest_webhook) at done in absurd cc
        | inr named ↦ elim (Option-cases req.body) [
          | inl unread ↦ let stuck = rw (named, unread, ingest_webhook) at done in absurd cc
          | inr (body, read) ↦ (body, read, λ u s. rw (named, read, ingest_webhook) refl)
        ]
      ]

  -- A webhook whose events name their source events, and that is answered as processed, writes no
  -- event when it is delivered again, at whatever time and however the second delivery ends: where the
  -- uuids of the first one's rows are new and the normalizers are faithful.
  pub ingest_webhook_idem :
      (w v : Backend) (req : WebhookRequest Body) (t : DoraTables (HeaderLibrary.Stored lib) Body)
      (n : ℕ)
      → AllEntries (λ name m. IsFaithful m) registry
      → ((body : Body)
          → req.body ≡ some body
          → AllIdentified (
              webhook_events folds lib registry w
                (provider_key folds req.provider)
                (trim_space req.tenant_id)
                (trim_space req.service_ref)
                (header_maps folds req.headers).1
                body))
      → IsFresh w.statements 0 t.events
      → (ingest_webhook folds lib registry w req t).1 ≡ processed n
      → (ingest_webhook folds lib registry v req
          (ingest_webhook folds lib registry w req t).0).0.events
        ≡ (ingest_webhook folds lib registry w req t).0.events
  ingest_webhook_idem w v req t n faithful ids fresh done =
      let (body, read, call) = ingest_webhook-process w req t n done in
      rw (call w t, call v _)
        (process_redelivered w v (provider_key folds req.provider) (trim_space req.tenant_id)
          (trim_space req.service_ref) req.headers body t n faithful (ids body read) fresh
          (rw (call w t) at done))
