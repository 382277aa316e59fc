-- ===== src/Dora/Webhook/Laws.antt =====
-- What a webhook leaves in the tables.
use mathlib.Core.List.{Memᴰ}
use release_engine.Prelude.{
  Bool, ℕ, String, true, false, ◌≡◌, ◌⊎◌, refl, none, some, List, [], ◌∷◌, Dict, AllEntries,
  AllEntries-lookup, ok, All, Bool-cases, Option-cases, Result-cases, inl, inr, eqb, trim_space,
  ◌||◌, ◌==◌, not,
}
use release_engine.Dora.Events.{
  DoraEvent, FoldLibrary, Normalizer, zero_time, is_event_type, validate_event, provider_key,
  resolve_normalizer,
}
use release_engine.Dora.Providers.Faithful.{IsFrom, IsFaithful, AllOk}
use release_engine.Dora.Headers.{HeaderLibrary, header_maps}
use release_engine.Dora.Store.{DoraTables, EventRow, Statements, event_row, insert_loop}
use release_engine.Dora.Store.Laws.{insert_loop-All}
use release_engine.Dora.Webhook.Outcome.{fail_with_dead_letter-events, store_events-events}
use release_engine.Dora.Webhook.{
  WebhookRequest, ingest_webhook, store_events, webhook_events, process_webhook, Backend,
  first_invalid,
}

-- The events that `first_invalid` lets through.
first_invalid-All :
    (es : List DoraEvent) → first_invalid es ≡ none → All (λ e. validate_event e ≡ none) es
first_invalid-All [] done = tt
first_invalid-All (e ∷ es) done = elim (Option-cases (validate_event e)) [
  | inl fine ↦ (fine, first_invalid-All es (rw (fine, first_invalid) at done))
  | inr (why, bad) ↦ let stuck = rw (bad, first_invalid) at done in absurd cc
]

validate_event-dated :
    (e : DoraEvent) → validate_event e ≡ none → eqb e.event_timestamp zero_time ≡ false
unfolding validate_event
validate_event-dated e done = elim (Bool-cases (trim_space e.tenant_id == "")) [
  | inl a ↦ let stuck = rw (a, validate_event) at done in absurd cc
  | inr a ↦ elim (Bool-cases (trim_space e.service_ref == "")) [
    | inl b ↦ let stuck = rw (a, b, validate_event) at done in absurd cc
    | inr b ↦ elim (Bool-cases (trim_space e.event_source == "")) [
      | inl c ↦ let stuck = rw (a, b, c, validate_event) at done in absurd cc
      | inr c ↦ elim (Bool-cases (eqb e.event_timestamp zero_time)) [
        | inl d ↦ let stuck = rw (a, b, c, d, validate_event) at done in absurd cc
        | inr d ↦ d
      ]
    ]
  ]
]

-- A row that a webhook wrote: the tenant's and the service's, of a known type and with a time.
pub record IsOfCaller (tenant_id service_ref : String) (row : EventRow) : Type 0 where
  pub tenant : row.tenant_id ≡ tenant_id
  pub service : row.service_ref ≡ some service_ref
  pub kind : is_event_type row.event_type ≡ true
  pub dated : eqb row.event_timestamp zero_time ≡ false

-- The events of a webhook, once they are validated, give rows of its tenant and service.
event_row-All :
    (db : Statements) (source tenant_id service_ref : String) (before : List EventRow)
    (es : List DoraEvent)
    → All (IsFrom source tenant_id service_ref) es
    → All (λ e. validate_event e ≡ none) es
    → All
        (λ e.
          (j : ℕ) (payload : String)
          → Memᴰ (event_row db j e payload) before
            ⊎ IsOfCaller tenant_id service_ref (event_row db j e payload))
        es
unfolding event_row
event_row-All db source t s before [] from valid = tt
event_row-All db source t s before (e ∷ es) (f, from) (v, valid) = (
  λ j payload. inr (record {
    tenant = f.tenant;
    service = rw f.service refl;
    kind = f.kind;
    dated = validate_event-dated e v;
  }),
  event_row-All db source t s before es from valid,
)

all_before :
    (before rows : List EventRow)
    → ((r : EventRow) → Memᴰ r rows → Memᴰ r before)
    → (P : EventRow → Type 0) → All (λ r. Memᴰ r before ⊎ P r) rows
all_before before [] h P = tt
all_before before (r ∷ rs) h P =
    (inl (h r (Memᴰ.head refl)), all_before before rs (λ x m. h x (Memᴰ.tail m)) P)

both_true : (p a : Bool) → (not p || not a) ≡ false → (p ≡ true) × (a ≡ true)
both_true true true h = (refl, refl)
both_true true false h = absurd cc
both_true false a h = absurd cc

module _ {Body : Type 0} (folds : FoldLibrary) (lib : HeaderLibrary)
    (registry : Dict (Normalizer Body)) (w : Backend) where
  store_events-cases :
      (tenant_id provider : String) (stored : HeaderLibrary.Stored lib) (body : Body)
      (es : List DoraEvent) (t : DoraTables (HeaderLibrary.Stored lib) Body)
      → ((store_events folds lib registry w tenant_id provider stored body es t).0.events
          ≡ t.events)
        ⊎ ((store_events folds lib registry w tenant_id provider stored body es t).0.events
            ≡ (insert_loop w.statements 0 es 0 t.events).0)
  unfolding store_events
  store_events-cases tenant_id provider stored body [] t = inl refl
  store_events-cases tenant_id provider stored body (e ∷ es) t =
      elim (Bool-cases (not w.pool || not w.acquires)) [
        | inl down ↦ inl (
            rw (down, store_events)
              (fail_with_dead_letter-events folds lib registry w tenant_id provider "store_error"
                "database unavailable" stored body t))
        | inr up ↦
            let (p, a) = both_true w.pool w.acquires up in
            inr (
              store_events-events folds lib registry w tenant_id provider stored body (e ∷ es) t p
                a)
      ]

  -- The events are as before, or those of the decision are inserted.
  pub process_webhook-cases :
      (provider tenant_id service_ref : String) (headers : Dict (List String)) (body : Body)
      (t : DoraTables (HeaderLibrary.Stored lib) Body)
      → ((process_webhook folds lib registry w provider tenant_id service_ref headers body
            t).0.events
          ≡ t.events)
        ⊎ ((es : List DoraEvent) × (webhook_events folds lib registry w provider tenant_id
                service_ref
                (header_maps folds headers).1
                body
              ≡ ok es)
            × ((process_webhook folds lib registry w provider tenant_id service_ref headers body
                  t).0.events
                ≡ (insert_loop w.statements 0 es 0 t.events).0))
  unfolding process_webhook
  process_webhook-cases provider tenant_id service_ref headers body t =
      let flat = (header_maps folds headers).1 in
      let stored = lib.encode (header_maps folds headers).0 in
      elim (Result-cases
        (webhook_events folds lib registry w provider tenant_id service_ref flat body)) [
          | inr ((code, detail), e) ↦ inl (
              rw (e, process_webhook)
                (fail_with_dead_letter-events folds lib registry w tenant_id provider code detail
                  stored body t))
          | inl (es, e) ↦ elim (store_events-cases tenant_id provider stored body es t) [
            | inl kept ↦ inl (rw (e, process_webhook) kept)
            | inr grown ↦ inr (es, e, rw (e, process_webhook) grown)
          ]
        ]

  -- The decision of faithful normalizers: valid events of the caller.
  pub webhook_events-All :
      (provider tenant_id service_ref : String) (headers : Dict String) (body : Body)
      (es : List DoraEvent)
      → AllEntries (λ name n. IsFaithful n) registry
      → webhook_events folds lib registry w provider tenant_id service_ref headers body ≡ ok es
      → (source : String) × All (IsFrom source tenant_id service_ref) es × (first_invalid es ≡ none)
  unfolding webhook_events resolve_normalizer
  webhook_events-All provider tenant_id service_ref headers body es faithful done =
      elim (Option-cases (resolve_normalizer folds provider registry)) [
        | inl missing ↦ let stuck = rw (missing, webhook_events) at done in absurd cc
        | inr (n, found) ↦
            let good = AllEntries-lookup _ _ _ _ faithful found in
            let from = good.from w.clock tenant_id service_ref headers body in
            elim (Result-cases (n.normalize w.clock tenant_id service_ref headers body)) [
              | inr (why, e) ↦ let stuck = rw (found, e, webhook_events) at done in absurd cc
              | inl (es', e) ↦ elim (Option-cases (first_invalid es')) [
                | inr (why, bad) ↦
                    let stuck = rw (found, e, bad, webhook_events) at done in absurd cc
                | inl valid ↦
                    let same = rw (found, e, valid, webhook_events) at done in
                    let one : es' ≡ es = cc in
                    (n.provider, rw (← one) (rw (e, AllOk) at from), rw (← one) valid)
              ]
            ]
      ]

  -- With faithful normalizers, every row of `dora_events` after a webhook was there before or is of
  -- the webhook's tenant and service, of a known type and with a time other than the zero time.
  pub ingest_webhook-IsOfCaller :
      (req : WebhookRequest Body) (t : DoraTables (HeaderLibrary.Stored lib) Body)
      → AllEntries (λ name n. IsFaithful n) registry
      → All
          (λ row.
            Memᴰ row t.events
            ⊎ IsOfCaller (trim_space req.tenant_id) (trim_space req.service_ref) row)
          (ingest_webhook folds lib registry w req t).0.events
  unfolding ingest_webhook
  ingest_webhook-IsOfCaller req t faithful =
      let tenant_id = trim_space req.tenant_id in
      let service_ref = trim_space req.service_ref in
      let provider = provider_key folds req.provider in
      let old = all_before t.events t.events (λ r m. m) (IsOfCaller tenant_id service_ref) in
      elim (Bool-cases (provider == "" || tenant_id == "" || service_ref == "")) [
        | inl blank ↦ rw (blank, ingest_webhook) old
        | inr named ↦ elim (Option-cases req.body) [
          | inl unread ↦ rw (named, unread, ingest_webhook) old
          | inr (body, read) ↦
              elim (process_webhook-cases provider tenant_id service_ref req.headers body t) [
                | inl kept ↦ rw (named, read, kept, ingest_webhook) old
                | inr (es, e, grown) ↦
                    let (source, from, valid) =
                      webhook_events-All provider tenant_id service_ref
                        (header_maps folds req.headers).1 body es faithful e in
                    rw (named, read, grown, ingest_webhook)
                      (insert_loop-All w.statements
                        (λ row. Memᴰ row t.events ⊎ IsOfCaller tenant_id service_ref row) es 0 0
                        t.events
                        (event_row-All w.statements source tenant_id service_ref t.events es from
                          (first_invalid-All es valid))
                        old)
              ]
        ]
      ]
