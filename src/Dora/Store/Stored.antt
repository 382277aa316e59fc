-- ===== src/Dora/Store/Stored.antt =====
-- Events that are stored under their keys are not stored again.
use mathlib.Core.Path.{subst}
use mathlib.Core.List.{Memᴰ}
use release_engine.Prelude.{
  Option, ℕ, suc, String, Result, true, false, ◌≡◌, ◌≢◌, ◌≤◌, ◌<◌, ◌⊎◌, refl, sym, ap, ◌∙◌, none,
  some, List, [], ◌∷◌, ◌++◌, ok, any, any-find, any_of_mem, All, map, Bool-cases, Option-cases,
  Result-cases, inl, inr, arith, eq_iff, eq_refl,
}
use release_engine.Dora.Events.{DoraEvent, is_event_type, is_deployment}
use release_engine.Dora.Providers.Faithful.{Key, key_of}
use release_engine.Dora.Store.{
  InsertError, payload_of, insert_loop, event_row, insert_event, sql_equal, collides,
  nullable_string, Statements, EventRow,
}

-- A row has the key, and the key names a source event.
pub record IsStored (rows : List EventRow) (k : Key) : Type 0 where
  pub row : EventRow
  pub here : Memᴰ row rows
  pub tenant : row.tenant_id ≡ k.0
  pub source : row.event_source ≡ k.1
  pub id : String
  pub named : nullable_string k.2 ≡ some id
  pub same_id : row.source_event_id ≡ some id

-- The uuids from the number `i` on are in no row, and no two of them are equal.
pub record IsFresh (db : Statements) (i : ℕ) (rows : List EventRow) : Type 0 where
  pub unused : (j : ℕ) → i ≤ j → (row : EventRow) → Memᴰ row rows → db.fresh j ≢ row.id
  pub apart : (j k : ℕ) → j < k → db.fresh j ≢ db.fresh k

-- The event names its source event and is no deployment's.
abbrev pub IsNamed : DoraEvent → Type 0
IsNamed e =
    (is_deployment e.event_type ≡ false)
    × ((id : String) × (nullable_string e.source_event_id ≡ some id))

IsStored-grows :
    (rows rows' : List EventRow) (k : Key)
    → ((row : EventRow) → Memᴰ row rows → Memᴰ row rows')
    → IsStored rows k
    → IsStored rows' k
IsStored-grows rows rows' k more s = record {
  row = s.row;
  here = more s.row s.here;
  tenant = s.tenant;
  source = s.source;
  id = s.id;
  named = s.named;
  same_id = s.same_id;
}

mem-append_left : {A : Type 0} {a : A} (xs ys : List A) → Memᴰ a xs → Memᴰ a (xs ++ ys)
mem-append_left [] ys m = elim m [ ]
mem-append_left (x ∷ xs) ys (Memᴰ.head e) = Memᴰ.head e
mem-append_left (x ∷ xs) ys (Memᴰ.tail m) = Memᴰ.tail (mem-append_left xs ys m)

mem-append_last : {A : Type 0} {a : A} (xs : List A) → Memᴰ a (xs ++ a ∷ [])
mem-append_last [] = Memᴰ.head refl
mem-append_last (x ∷ xs) = Memᴰ.tail (mem-append_last xs)

mem_of_append_last :
    {A : Type 0} {b : A} (xs : List A) (a : A) → Memᴰ b (xs ++ a ∷ []) → Memᴰ b xs ⊎ (b ≡ a)
mem_of_append_last [] a (Memᴰ.head e) = inr e
mem_of_append_last [] a (Memᴰ.tail m) = elim m [ ]
mem_of_append_last (x ∷ xs) a (Memᴰ.head e) = inl (Memᴰ.head e)
mem_of_append_last (x ∷ xs) a (Memᴰ.tail m) = elim (mem_of_append_last xs a m) [
  | inl n ↦ inl (Memᴰ.tail n)
  | inr e ↦ inr e
]

-- Rows that collide otherwise than by their id or as deployments have one source event.
collides-source :
    (new old : EventRow)
    → new.id ≢ old.id
    → is_deployment new.event_type ≡ false
    → collides new old ≡ true
    → (new.tenant_id ≡ old.tenant_id)
      × (new.event_source ≡ old.event_source)
      × (sql_equal new.source_event_id old.source_event_id ≡ true)
unfolding collides
collides-source new old apart other hit = ground (
  arith,
  eq_iff new.id old.id,
  eq_iff new.tenant_id old.tenant_id,
  eq_iff new.event_source old.event_source,
)

collides_of_source :
    (new old : EventRow)
    → new.tenant_id ≡ old.tenant_id
    → new.event_source ≡ old.event_source
    → sql_equal new.source_event_id old.source_event_id ≡ true
    → collides new old ≡ true
unfolding collides
collides_of_source new old t s i =
    rw ((eq_iff new.tenant_id old.tenant_id).1 t, (eq_iff new.event_source old.event_source).1 s, i)
      (ground arith)

sql_equal-some :
    (a : Option String) (b : Option String) (x : String)
    → a ≡ some x
    → sql_equal a b ≡ true
    → b ≡ some x
sql_equal-some none b x e h = cc
sql_equal-some (some y) none x e h = absurd cc
sql_equal-some (some y) (some z) x e h =
    let same : y ≡ z = (eq_iff y z).0 h in let one : y ≡ x = cc in rw (← same, one) refl

module _ (db : Statements) where
  -- An insert that succeeds leaves the event stored, the stored rows, and the later uuids fresh.
  insert_event-IsStored :
      (i : ℕ) (e : DoraEvent) (payload : String) (rows rows' : List EventRow)
      → IsNamed e
      → IsFresh db i rows
      → insert_event db i e payload rows ≡ ok rows'
      → IsStored rows' (key_of e)
        × ((row : EventRow) → Memᴰ row rows → Memᴰ row rows')
        × IsFresh db (suc i) rows'
  unfolding insert_event event_row
  insert_event-IsStored i e payload rows rows' (other, (id, named)) fresh done =
      let row = event_row db i e payload in
      elim (Option-cases (db.fault i)) [
        | inr (why, f) ↦ let stuck = rw (f, insert_event) at done in absurd cc
        | inl f ↦ elim (Bool-cases (is_event_type e.event_type)) [
          | inr bad ↦ let stuck = rw (f, bad, insert_event) at done in absurd cc
          | inl good ↦ elim (Bool-cases (any (collides row) rows)) [
            | inl hit ↦
                let same = rw (f, good, hit, insert_event) at done in
                let kept : rows ≡ rows' = cc in
                let (old, at, coll) = any-find (collides row) rows hit in
                let (t, s, q) =
                  collides-source row old (fresh.unused i (omega arith) old at) other coll in
                subst
                  (λ r.
                    IsStored r (key_of e)
                    × ((x : EventRow) → Memᴰ x rows → Memᴰ x r)
                    × IsFresh db (suc i) r)
                  kept
                  (
                    record {
                      row = old;
                      here = at;
                      tenant = sym t;
                      source = sym s;
                      id = id;
                      named = named;
                      same_id = sql_equal-some _ old.source_event_id id named q;
                    },
                    λ x m. m,
                    record {
                      unused = λ j le x m. fresh.unused j (omega arith) x m;
                      apart = fresh.apart;
                    },
                  )
            | inr free ↦
                let same = rw (f, good, free, insert_event) at done in
                let grown : rows ++ row ∷ [] ≡ rows' = cc in
                subst
                  (λ r.
                    IsStored r (key_of e)
                    × ((x : EventRow) → Memᴰ x rows → Memᴰ x r)
                    × IsFresh db (suc i) r)
                  grown
                  (
                    record {
                      row = row;
                      here = mem-append_last rows;
                      tenant = refl;
                      source = refl;
                      id = id;
                      named = named;
                      same_id = named;
                    },
                    λ x m. mem-append_left rows (row ∷ []) m,
                    record {
                      unused = λ j le x m. elim (mem_of_append_last rows row m) [
                        | inl before ↦ fresh.unused j (omega arith) x before
                        | inr last ↦ λ same_id.
                            fresh.apart i j (omega arith)
                              (sym (same_id ∙ ap (λ (r : EventRow). r.id) last))
                      ];
                      apart = fresh.apart;
                    },
                  )
          ]
        ]
      ]

  pub insert_loop-AllStored :
      (es : List DoraEvent) (i written n : ℕ) (rows : List EventRow)
      → All IsNamed es
      → IsFresh db i rows
      → (insert_loop db i es written rows).1 ≡ ok n
      → All (IsStored (insert_loop db i es written rows).0) (map key_of es)
        × ((row : EventRow) → Memᴰ row rows → Memᴰ row (insert_loop db i es written rows).0)
  unfolding insert_loop
  insert_loop-AllStored [] i written n rows all fresh done = (tt, λ row m. m)
  insert_loop-AllStored (e ∷ es) i written n rows (named, all) fresh done =
      elim (Result-cases (payload_of db e)) [
        | inr (why, p) ↦ let stuck = rw (p, insert_loop) at done in absurd cc
        | inl (payload, p) ↦ elim (Result-cases (insert_event db i e payload rows)) [
          | inr (why, q) ↦ let stuck = rw (p, q, insert_loop) at done in absurd cc
          | inl (rows', q) ↦
              let (here, more, fresh') =
                insert_event-IsStored i e payload rows rows' named fresh q in
              let (later, most) =
                insert_loop-AllStored es (suc i) (suc written) n rows' all fresh'
                  (rw (p, q, insert_loop) at done) in
              let call : insert_loop db i (e ∷ es) written rows
                  ≡ insert_loop db (suc i) es (suc written) rows' =
                rw (p, q, insert_loop) refl in
              subst
                (λ (r : List EventRow × Result InsertError ℕ).
                  All (IsStored r.0) (map key_of (e ∷ es))
                  × ((row : EventRow) → Memᴰ row rows → Memᴰ row r.0))
                (sym call)
                (
                  (IsStored-grows rows' _ (key_of e) most here, later),
                  λ row m. most row (more row m),
                )
        ]
      ]

  -- Inserts of events that are stored change nothing, however they end.
  pub insert_loop-again :
      (es : List DoraEvent) (i written : ℕ) (rows : List EventRow)
      → All (IsStored rows) (map key_of es)
      → (insert_loop db i es written rows).0 ≡ rows
  unfolding insert_loop
  insert_loop-again [] i written rows all = refl
  insert_loop-again (e ∷ es) i written rows (here, all) = elim (Result-cases (payload_of db e)) [
    | inr (why, p) ↦ rw (p, insert_loop) refl
    | inl (payload, p) ↦ elim (Option-cases (db.fault i)) [
      | inr (why, f) ↦ rw (p, insert_loop, insert_event, f) refl
      | inl f ↦ elim (Bool-cases (is_event_type e.event_type)) [
        | inr bad ↦ rw (p, insert_loop, insert_event, f, bad) refl
        | inl good ↦
            let row = event_row db i e payload in
            let hit : any (collides row) rows ≡ true = any_of_mem (collides row) rows here.here (
              collides_of_source row here.row (sym here.tenant) (sym here.source)
                (rw (here.named, here.same_id) (eq_refl here.id))) in
            rw (p, insert_loop, insert_event, f, good, hit)
              (insert_loop-again es (suc i) (suc written) rows all)
      ]
    ]
  ]
