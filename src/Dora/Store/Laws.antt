-- ===== src/Dora/Store/Laws.antt =====
-- What the inserts keep of `dora_events`.
use release_engine.Prelude.{
  ℕ, suc, String, ◌≡◌, List, [], ◌∷◌, ◌++◌, ok, any, All, All-append, Bool-cases, Option-cases,
  Result-cases, inl, inr,
}
use release_engine.Dora.Events.{DoraEvent, is_event_type}
use release_engine.Dora.Store.{
  payload_of, collides, event_row, insert_loop, insert_event, EventRow, Statements,
}

module _ (db : Statements) (P : EventRow → Type 0) where
  insert_event-All :
      (i : ℕ) (e : DoraEvent) (payload : String) (rows rows' : List EventRow)
      → P (event_row db i e payload)
      → All P rows
      → insert_event db i e payload rows ≡ ok rows'
      → All P rows'
  unfolding insert_event
  insert_event-All i e payload rows rows' new all done = elim (Option-cases (db.fault i)) [
    | inr (why, f) ↦ let stuck = rw (f, insert_event) at done in absurd cc
    | inl f ↦ elim (Bool-cases (is_event_type e.event_type)) [
      | inr bad ↦ let stuck = rw (f, bad, insert_event) at done in absurd cc
      | inl good ↦ elim (Bool-cases (any (collides (event_row db i e payload)) rows)) [
        | inl hit ↦
            let same = rw (f, good, hit, insert_event) at done in
            let kept : rows ≡ rows' = cc in rw (← kept) all
        | inr free ↦
            let same = rw (f, good, free, insert_event) at done in
            let grown : rows ++ event_row db i e payload ∷ [] ≡ rows' = cc in
            rw (← grown) (All-append P rows (event_row db i e payload ∷ []) all (new, tt))
      ]
    ]
  ]

  pub insert_loop-All :
      (es : List DoraEvent) (i written : ℕ) (rows : List EventRow)
      → All (λ e. (j : ℕ) (payload : String) → P (event_row db j e payload)) es
      → All P rows
      → All P (insert_loop db i es written rows).0
  unfolding insert_loop
  insert_loop-All [] i written rows new all = all
  insert_loop-All (e ∷ es) i written rows (new, later) all = elim (Result-cases (payload_of db e)) [
    | inr (why, p) ↦ rw (p, insert_loop) all
    | inl (payload, p) ↦ elim (Result-cases (insert_event db i e payload rows)) [
      | inr (why, q) ↦ rw (p, q, insert_loop) all
      | inl (rows', q) ↦
          rw (p, q, insert_loop)
            (insert_loop-All es (suc i) (suc written) rows' later
              (insert_event-All i e payload rows rows' (new i payload) all q))
    ]
  ]
