-- ===== src/Outbox.antt =====
-- internal/outbox/dispatcher.go: the registry of event types and the queue of pending events.
-- The mutex makes each operation atomic. `Start`'s loop is its one effect on the state, `flush`.
pub mod Laws
mod Tests
use release_engine.Prelude.{
  ℕ, String, Bool, true, false, Option, none, some, List, [], ◌∷◌, ◌++◌, map, ◌==◌, leb, length,
  if◌then◌else◌, Dict, lookup, insert, sort, le_text, is_some, Result, ok, err,
}

-- `Payload` is `map[string]any` in the source.
pub record Event (Payload : Type 0) : Type 0 where
  pub event_type : String
  pub job_id : String
  pub step_id : String
  pub occurred_at : ℕ
  pub payload : Payload

pub record Dispatcher (Payload : Type 0) : Type 0 where
  pub event_types : Dict (Unit {0})
  pub pending : List (Event Payload)

abbrev pub approval_requested : String
approval_requested = "approval_requested"

abbrev pub approval_decided : String
approval_decided = "approval_decided"

abbrev pub approval_escalated : String
approval_escalated = "approval_escalated"

abbrev pub approval_expired : String
approval_expired = "approval_expired"

pub data EmitError : Type 0 where
  not_registered : String → EmitError

module _ {P : Type 0} where
  unfoldable pub register_event_type : Dispatcher P → String → Dispatcher P
  register_event_type d t =
      if t == "" then d else record d { event_types = insert t tt d.event_types }

  unfoldable pub new_outbox_dispatcher : Dispatcher P
  unfolding register_event_type
  new_outbox_dispatcher =
      let d : Dispatcher P = record { event_types = []; pending = [] } in
      let d1 = register_event_type d approval_requested in
      let d2 = register_event_type d1 approval_decided in
      let d3 = register_event_type d2 approval_escalated in register_event_type d3 approval_expired

  abbrev pub registered_event_types : Dispatcher P → List String
  registered_event_types d = sort le_text (map (λ e. e.0) d.event_types)

  unfoldable pub emit : Dispatcher P → Event P → Dispatcher P × Result EmitError (Unit {0})
  emit d e =
      if is_some (lookup e.event_type d.event_types)
      then (record d { pending = d.pending ++ e ∷ [] }, ok tt)
      else (d, err (not_registered e.event_type))

  -- What one tick of `Start` does.
  unfoldable pub flush : Dispatcher P → Dispatcher P
  flush d = if leb 1 (length d.pending) then record d { pending = [] } else d
