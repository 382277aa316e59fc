-- ===== src/Outbox/Tests.antt =====
-- The dispatcher with events whose payload is a text.
use release_engine.Prelude.{String, List, [], ◌∷◌}
use release_engine.Outbox.{Event}
use release_engine.Outbox.Laws.{Call, registers, emits, ticks}

abbrev notice : String → Event String
notice t = record { event_type = t; job_id = "j1"; step_id = "s1"; occurred_at = 5; payload = "p" }

abbrev calls : List (Call String)
calls = registers "deployed" ∷ emits (notice "deployed") ∷ ticks ∷ emits (notice "unknown") ∷ []
