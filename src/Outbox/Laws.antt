-- ===== src/Outbox/Laws.antt =====
-- What the dispatcher accepts and what it holds, over any sequence of calls.
use release_engine.Prelude.{
  String, ◌≡◌, ◌≢◌, inl, inr, refl, true, List, [], ◌∷◌, ◌++◌, eq_iff, eq_refl, arith, leb, length,
  Bool-cases, Option-cases, lookup, lookup-insert, is_some, All, All-append, All-map, ok,
}
use release_engine.Outbox.{Event, Dispatcher, register_event_type, emit, flush}

-- A call on the dispatcher; the last is a tick of `Start`.
pub data Call (P : Type 0) : Type 0 where
  registers : (event_type : String) → Call P
  emits : (event : Event P) → Call P
  ticks : Call P

module _ {P : Type 0} where
  unfoldable pub step : Dispatcher P → Call P → Dispatcher P
  step d (registers t) = register_event_type d t
  step d (emits e) = (emit d e).0
  step d ticks = flush d

  unfoldable pub run : Dispatcher P → List (Call P) → Dispatcher P
  run d [] = d
  run d (c ∷ cs) = run (step d c) cs

  abbrev pub IsRegistered : Dispatcher P → String → Type 0
  IsRegistered d t = is_some (lookup t d.event_types) ≡ true

  -- Every pending event has a registered type.
  abbrev pub AllRegistered : Dispatcher P → Type 0
  AllRegistered d = All (λ e. IsRegistered d e.event_type) d.pending

  register_keeps :
      (d : Dispatcher P) (t u : String)
      → IsRegistered d t
      → IsRegistered (register_event_type d u) t
  unfolding register_event_type
  register_keeps d t u h = ground (arith, lookup-insert u t tt d.event_types, eq_iff u t)

  step_keeps :
      (d : Dispatcher P) (c : Call P) (t : String) → IsRegistered d t → IsRegistered (step d c) t
  unfolding step emit flush
  step_keeps d (registers u) t h = register_keeps d t u h
  step_keeps d (emits e) t h = ground (arith, h)
  step_keeps d ticks t h = ground (arith, h)

  run_keeps :
      (d : Dispatcher P) (cs : List (Call P)) (t : String)
      → IsRegistered d t
      → IsRegistered (run d cs) t
  unfolding run
  run_keeps d [] t h = h
  run_keeps d (c ∷ cs) t h = run_keeps (step d c) cs t (step_keeps d c t h)

  pending-register : (d : Dispatcher P) (u : String) → (register_event_type d u).pending ≡ d.pending
  unfolding register_event_type
  pending-register d u = ground arith

  register-IsRegistered :
      (d : Dispatcher P) (t : String) → t ≢ "" → IsRegistered (register_event_type d t) t
  unfolding register_event_type
  register-IsRegistered d t named =
      ground (arith, named, eq_iff t "", lookup-insert t t tt d.event_types, eq_refl t)

  step-AllRegistered : (d : Dispatcher P) (c : Call P) → AllRegistered d → AllRegistered (step d c)
  unfolding step emit flush register_event_type
  step-AllRegistered d (registers u) h = rw (pending-register d u) (
      All-map (λ e. IsRegistered d e.event_type)
        (λ e. IsRegistered (register_event_type d u) e.event_type)
        (λ e. register_keeps d e.event_type u) d.pending h)
  step-AllRegistered d (emits e) h = elim (Option-cases (lookup e.event_type d.event_types)) [
    | inl new ↦ rw (new, step, emit) h
    | inr (u, known) ↦
        rw (known, step, emit)
          (All-append (λ x. IsRegistered d x.event_type) d.pending (e ∷ []) h (rw known refl, tt))
  ]
  step-AllRegistered d ticks h = elim (Bool-cases (leb 1 (length d.pending))) [
    | inl e ↦ rw e tt
    | inr e ↦ rw e h
  ]

  -- From a dispatcher whose pending events all have registered types, any sequence of
  -- registrations, emissions and ticks leads to another such dispatcher.
  pub run-AllRegistered :
      (d : Dispatcher P) (cs : List (Call P)) → AllRegistered d → AllRegistered (run d cs)
  unfolding run
  run-AllRegistered d [] h = h
  run-AllRegistered d (c ∷ cs) h = run-AllRegistered (step d c) cs (step-AllRegistered d c h)

  -- Once a type that is not empty is registered, an event of that type is accepted and becomes the
  -- last pending event, whatever calls came in between.
  pub emit_registered :
      (d : Dispatcher P) (cs : List (Call P)) (e : Event P)
      → e.event_type ≢ ""
      → emit (run (register_event_type d e.event_type) cs) e ≡ (
        record (run (register_event_type d e.event_type) cs) {
          pending = (run (register_event_type d e.event_type) cs).pending ++ e ∷ [];
        },
        ok tt,
      )
  unfolding emit
  emit_registered d cs e named =
      let d1 = register_event_type d e.event_type in
      rw (run_keeps d1 cs e.event_type (register-IsRegistered d e.event_type named)) refl
