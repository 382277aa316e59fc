-- ===== src/Dora/Replay/Letters.antt =====
-- What a replay and a webhook leave in `dora_events`.
use release_engine.Prelude.{
  ap, ◌∙◌, String, true, false, ◌≡◌, ◌≢◌, refl, none, some, List, [], ◌∷◌, ◌++◌, Dict, Bool-cases,
  Option-cases, Result-cases, inl, inr, arith, eq_iff, eq_refl, All,
}
use release_engine.Dora.Events.{DoraEvent, FoldLibrary, Normalizer}
use release_engine.Dora.Headers.{HeaderLibrary}
use release_engine.Dora.Store.{insert_loop, DoraTables, LetterRow}
use release_engine.Dora.Webhook.{Backend, dead_letter, fail_with_dead_letter, write_dead_letter}
use release_engine.Dora.Replay.{
  refused_insert, unmarshalled, letter_events, mark_replayed, replay_letter, insert_loop,
  replay_events, ReplayBackend, find_letter,
}
use release_engine.Dora.Webhook.Outcome.{fail_with_dead_letter_lem, inserted}

-- No letter has the id.
abbrev pub IsNewLetter : {Stored Body : Type 0} → String → List (LetterRow Stored Body) → Type 0
IsNewLetter id letters = All (λ r. r.id ≢ id) letters

-- The database gives no connection for a webhook's events, but one for its dead letter.
abbrev pub IsDown : Backend → Type 0
IsDown w =
    (w.pool ≡ true) × (w.acquires ≡ false) × (w.acquires_letter ≡ true) × (w.letter_fault ≡ false)

module _ {Body : Type 0} (folds : FoldLibrary) (lib : HeaderLibrary)
    (registry : Dict (Normalizer Body)) where
  pub find_letter-append :
      (id tenant_id : String) (letters : List (LetterRow (HeaderLibrary.Stored lib) Body))
      (new : LetterRow (HeaderLibrary.Stored lib) Body)
      → IsNewLetter id letters
      → new.id ≡ id
      → new.tenant_id ≡ tenant_id
      → find_letter id tenant_id (letters ++ new ∷ []) ≡ some new
  unfolding find_letter
  find_letter-append id tenant_id [] new h i t = rw (i, t, eq_refl id, eq_refl tenant_id) refl
  find_letter-append id tenant_id (r ∷ rs) new (h, hs) i t =
      let later = find_letter-append id tenant_id rs new hs i t in
      ground (arith, later, eq_iff r.id id)

  pub find_letter-new :
      (id tenant_id : String) (letters : List (LetterRow (HeaderLibrary.Stored lib) Body))
      → IsNewLetter id letters
      → find_letter id tenant_id letters ≡ none
  unfolding find_letter
  find_letter-new id tenant_id [] h = refl
  find_letter-new id tenant_id (r ∷ rs) (h, hs) =
      let later = find_letter-new id tenant_id rs hs in ground (arith, later, eq_iff r.id id)

  -- A replay inserts the events of its letter, however the inserts end.
  replay_events-events :
      (b : ReplayBackend) (id tenant_id : String) (es : List DoraEvent)
      (t : DoraTables (HeaderLibrary.Stored lib) Body)
      → (replay_events folds lib registry b id tenant_id es t).0.events
        ≡ (insert_loop b.backend.statements 0 es 0 t.events).0
  unfolding replay_events
  replay_events-events b id tenant_id es t =
      let marked_rows = mark_replayed b.backend.statements.now b.job_id id tenant_id t.letters in
      elim (Result-cases (insert_loop b.backend.statements 0 es 0 t.events).1) [
        | inr (unmarshalled why, e) ↦ rw (e, replay_events) refl
        | inr (refused_insert why, e) ↦ rw (e, replay_events) refl
        | inl (written, e) ↦ elim (Bool-cases b.update_fails) [
          | inl fault ↦ rw (e, fault, replay_events) refl
          | inr works ↦ elim (Option-cases marked_rows.1) [
            | inl taken ↦ rw (e, works, taken, replay_events) refl
            | inr (job, returned) ↦ rw (e, works, returned, replay_events) refl
          ]
        ]
      ]

  -- A replay of a letter that is found and open.
  pub replay_letter-events :
      (b : ReplayBackend) (id tenant_id service_ref : String)
      (t : DoraTables (HeaderLibrary.Stored lib) Body)
      (r : LetterRow (HeaderLibrary.Stored lib) Body)
      → b.backend.pool ≡ true
      → b.backend.acquires ≡ true
      → b.select_fails ≡ false
      → find_letter id tenant_id t.letters ≡ some r
      → r.replayed_at ≡ none
      → (replay_letter folds lib registry b id tenant_id service_ref t).0.events
        ≡ inserted b.backend.statements
            (letter_events folds lib registry b tenant_id service_ref r)
            t.events
  unfolding replay_letter
  replay_letter-events b id tenant_id service_ref t r p a s found unread =
      elim (Result-cases (letter_events folds lib registry b tenant_id service_ref r)) [
        | inr (code, e) ↦ rw (p, a, s, found, unread, e, replay_letter) refl
        | inl (es, e) ↦
            rw (p, a, s, found, unread, e, replay_letter, replay_events-events b id tenant_id es t)
              refl
      ]

  pub replay_letter-none :
      (b : ReplayBackend) (id tenant_id service_ref : String)
      (t : DoraTables (HeaderLibrary.Stored lib) Body)
      → b.backend.pool ≡ true
      → b.backend.acquires ≡ true
      → b.select_fails ≡ false
      → find_letter id tenant_id t.letters ≡ none
      → (replay_letter folds lib registry b id tenant_id service_ref t).0.events ≡ t.events
  unfolding replay_letter
  replay_letter-none b id tenant_id service_ref t p a s missing =
      rw (p, a, s, missing, replay_letter) refl

  write_dead_letter_down :
      (w : Backend) (tenant_id provider code detail : String) (stored : HeaderLibrary.Stored lib)
      (body : Body) (t : DoraTables (HeaderLibrary.Stored lib) Body)
      → IsDown w
      → write_dead_letter folds lib registry w tenant_id provider code detail stored body t ≡ (
        record t {
          letters =
              t.letters
              ++ dead_letter folds lib registry w tenant_id provider code detail stored body ∷ [];
        },
        some w.letter_id,
      )
  unfolding write_dead_letter
  write_dead_letter_down w tenant_id provider code detail stored body t (p, a, al, f) =
      rw (p, al, f, write_dead_letter) refl

  pub fail_with_dead_letter_down :
      (w : Backend) (tenant_id provider code detail : String) (stored : HeaderLibrary.Stored lib)
      (body : Body) (t : DoraTables (HeaderLibrary.Stored lib) Body)
      → IsDown w
      → (fail_with_dead_letter folds lib registry w tenant_id provider code detail stored body t).0
        ≡ record t {
          letters =
              t.letters
              ++ dead_letter folds lib registry w tenant_id provider code detail stored body ∷ [];
        }
  fail_with_dead_letter_down w tenant_id provider code detail stored body t down =
      fail_with_dead_letter_lem folds lib registry w tenant_id provider code detail stored body t
      ∙ ap (λ wrote. wrote.0)
          (write_dead_letter_down w tenant_id provider code detail stored body t down)
