-- ===== src/Dora/Webhook/Outcome.antt =====
-- What a webhook leaves in `dora_events`.
use release_engine.Prelude.{
  String, true, ◌≡◌, ◌||◌, not, refl, List, [], ◌∷◌, Dict, Result, ok, err, Bool-cases,
  Option-cases, Result-cases, inl, inr,
}
use release_engine.Dora.Events.{DoraEvent, FoldLibrary, Normalizer}
use release_engine.Dora.Headers.{HeaderLibrary, header_maps}
use release_engine.Dora.Store.{
  insert_loop, unmarshalled, refused_insert, Statements, DoraTables, EventRow,
}
use release_engine.Dora.Webhook.{
  webhook_events, Backend, process_webhook, store_events, fail_with_dead_letter, write_dead_letter,
}

-- What the events of a table become where the events of a webhook are inserted.
abbrev pub inserted :
    {E : Type 0} → Statements → Result E (List DoraEvent) → List EventRow → List EventRow
inserted db (err e) rows = rows
inserted db (ok es) rows = (insert_loop db 0 es 0 rows).0

module _ {Body : Type 0} (folds : FoldLibrary) (lib : HeaderLibrary)
    (registry : Dict (Normalizer Body)) where
  -- A dead letter leaves the events as they are.
  pub write_dead_letter-events :
      (w : Backend) (tenant_id provider code detail : String) (stored : HeaderLibrary.Stored lib)
      (body : Body) (t : DoraTables (HeaderLibrary.Stored lib) Body)
      → (write_dead_letter folds lib registry w tenant_id provider code detail stored body
          t).0.events
        ≡ t.events
  unfolding write_dead_letter
  write_dead_letter-events w tenant_id provider code detail stored body t =
      elim (Bool-cases (not w.pool || not w.acquires_letter || w.letter_fault)) [
        | inl stuck ↦ rw (stuck, write_dead_letter) refl
        | inr works ↦ rw (works, write_dead_letter) refl
      ]

  -- The tables of a failed webhook are those of its dead letter.
  pub fail_with_dead_letter_lem :
      (w : Backend) (tenant_id provider code detail : String) (stored : HeaderLibrary.Stored lib)
      (body : Body) (t : DoraTables (HeaderLibrary.Stored lib) Body)
      → (fail_with_dead_letter folds lib registry w tenant_id provider code detail stored body t).0
        ≡ (write_dead_letter folds lib registry w tenant_id provider code detail stored body t).0
  unfolding fail_with_dead_letter
  fail_with_dead_letter_lem w tenant_id provider code detail stored body t =
      elim (Option-cases
        (write_dead_letter folds lib registry w tenant_id provider code detail stored body t).1) [
          | inl stuck ↦ rw (stuck, fail_with_dead_letter) refl
          | inr (id, works) ↦ rw (works, fail_with_dead_letter) refl
        ]

  pub fail_with_dead_letter-events :
      (w : Backend) (tenant_id provider code detail : String) (stored : HeaderLibrary.Stored lib)
      (body : Body) (t : DoraTables (HeaderLibrary.Stored lib) Body)
      → (fail_with_dead_letter folds lib registry w tenant_id provider code detail stored body
          t).0.events
        ≡ t.events
  fail_with_dead_letter-events w tenant_id provider code detail stored body t =
      rw (fail_with_dead_letter_lem w tenant_id provider code detail stored body t)
        (write_dead_letter-events w tenant_id provider code detail stored body t)

  pub store_events-events :
      (w : Backend) (tenant_id provider : String) (stored : HeaderLibrary.Stored lib) (body : Body)
      (es : List DoraEvent) (t : DoraTables (HeaderLibrary.Stored lib) Body)
      → w.pool ≡ true
      → w.acquires ≡ true
      → (store_events folds lib registry w tenant_id provider stored body es t).0.events
        ≡ (insert_loop w.statements 0 es 0 t.events).0
  unfolding store_events insert_loop
  store_events-events w tenant_id provider stored body [] t p a = refl
  store_events-events w tenant_id provider stored body (e ∷ es) t p a =
      elim (Result-cases (insert_loop w.statements 0 (e ∷ es) 0 t.events).1) [
        | inl (written, done) ↦ rw (p, a, done, store_events) refl
        | inr (unmarshalled why, done) ↦
            rw (p, a, done, store_events, fail_with_dead_letter-events) refl
        | inr (refused_insert why, done) ↦
            rw (p, a, done, store_events, fail_with_dead_letter-events) refl
      ]

  -- A webhook that finds the database.
  pub process_webhook-events :
      (w : Backend) (provider tenant_id service_ref : String) (headers : Dict (List String))
      (body : Body) (t : DoraTables (HeaderLibrary.Stored lib) Body)
      → w.pool ≡ true
      → w.acquires ≡ true
      → (process_webhook folds lib registry w provider tenant_id service_ref headers body
          t).0.events
        ≡ inserted w.statements
            (webhook_events folds lib registry w provider tenant_id service_ref
              (header_maps folds headers).1
              body)
            t.events
  unfolding process_webhook
  process_webhook-events w provider tenant_id service_ref headers body t p a =
      let flat = (header_maps folds headers).1 in
      let decided = webhook_events folds lib registry w provider tenant_id service_ref flat body in
      elim (Result-cases decided) [
        | inr ((code, detail), e) ↦ rw (e, process_webhook, fail_with_dead_letter-events) refl
        | inl (es, e) ↦
            rw (e, process_webhook, store_events-events w tenant_id provider _ body es t p a) refl
      ]
