-- ===== src/Dora/Replay/Laws.antt =====
-- A replay by any caller.
use release_engine.Prelude.{
  if◌then◌else◌, ◌∙◌, false, ◌≡◌, ◌||◌, if◌then◌else◌, refl, sym, Option, none, some, ◌==◌, Dict,
  trim_space, Bool-cases, inl, inr,
}
use release_engine.Dora.Events.{FoldLibrary, Normalizer}
use release_engine.Dora.Headers.{HeaderLibrary}
use release_engine.Dora.Store.{DoraTables}
use release_engine.Dora.Admission.{authorize, stops, Denial, DoraCaller}
use release_engine.Dora.Replay.{replay_letter, ReplayRequest, ReplayBackend, replay_dead_letter}

module _ {Body : Type 0} (folds : FoldLibrary) (lib : HeaderLibrary)
    (registry : Dict (Normalizer Body)) where
  -- An answer that can be written stops no handler.
  stops_written : (d : Option Denial) → stops false d ≡ false
  stops_written none = refl
  stops_written (some d) = refl

  pub replay_dead_letter_lem :
      (b : ReplayBackend) (caller : DoraCaller) (req : ReplayRequest)
      (t : DoraTables (HeaderLibrary.Stored lib) Body)
      → (replay_dead_letter folds lib registry b false caller req t).0 ≡ (
          if trim_space req.id == "" || trim_space req.tenant_id == ""
          then t
          else (replay_letter folds lib registry b
              (trim_space req.id)
              (trim_space req.tenant_id)
              (trim_space req.service_ref)
              t).0)
  unfolding replay_dead_letter
  replay_dead_letter_lem b caller req t =
      elim (Bool-cases (trim_space req.id == "" || trim_space req.tenant_id == "")) [
        | inl blank ↦ rw (blank, replay_dead_letter) refl
        | inr named ↦
            rw
              (
                named,
                stops_written (authorize caller (trim_space req.tenant_id)),
                replay_dead_letter,
              )
              refl
      ]

  -- Where the answers can be written, a replay leaves the same tables whoever calls it: with claims
  -- of another tenant, for a brand that the caller may not see, or without claims.
  pub replay_dead_letter-any_caller :
      (b : ReplayBackend) (one other : DoraCaller) (req : ReplayRequest)
      (t : DoraTables (HeaderLibrary.Stored lib) Body)
      → (replay_dead_letter folds lib registry b false one req t).0
        ≡ (replay_dead_letter folds lib registry b false other req t).0
  replay_dead_letter-any_caller b one other req t =
      replay_dead_letter_lem b one req t ∙ sym (replay_dead_letter_lem b other req t)
