-- ===== src/Dora/Events.antt =====
-- `Event`, `ValidateEvent` and the registry of normalizers (internal/dora/normalizer.go).
use release_engine.Prelude.{
  ◌||◌, ℕ, String, ◌<>◌, Bool, Option, none, some, List, [], ◌∷◌, ◌==◌, map, if◌then◌else◌, Dict,
  insert, lookup, trim_space, is_some, sort, le_text, eqb, any, Result,
}

-- The library's `strings.ToLower` and `strings.EqualFold`.
pub record FoldLibrary : Type 0 where
  pub to_lower : String → String
  pub equal_fold : String → String → Bool

-- Instants are nanoseconds from a day before the year 0, since RFC 3339 names no earlier one. The
-- year 0 has 366 days.
abbrev pub zero_time : ℕ
zero_time = 31_708_800_000_000_000

pub record DoraEvent : Type 0 where
  pub tenant_id : String
  pub event_type : String
  pub event_source : String
  pub service_ref : String
  pub environment : String
  pub correlation_key : String
  pub source_event_id : String
  pub event_timestamp : ℕ
  pub payload : Option (Dict String)

abbrev event_types : List String
event_types =
    "deployment.succeeded" ∷ "deployment.failed" ∷ "commit.pushed" ∷ "commit.merged"
    ∷ "incident.opened" ∷ "incident.resolved" ∷ "rollback.completed" ∷ []

unfoldable pub is_event_type : String → Bool
is_event_type t = any (λ name. t == name) event_types

abbrev pub is_deployment : String → Bool
is_deployment t = t == "deployment.succeeded" || t == "deployment.failed"

-- `none` is `nil`, no error.
unfoldable pub validate_event : DoraEvent → Option String
validate_event e =
    if trim_space e.tenant_id == ""
    then some "tenant_id is required"
    else if trim_space e.service_ref == ""
    then some "service_ref is required"
    else if trim_space e.event_source == ""
    then some "event_source is required"
    else if eqb e.event_timestamp zero_time
    then some "event_timestamp is required"
    else if is_event_type e.event_type
    then none
    else some ("unsupported event_type: " <> e.event_type)

-- `Normalize` of a provider. The number `i` of the clock is its reading for the i-th commit, or the one
-- reading where the code reads it once.
pub record Normalizer (Body : Type 0) : Type 0 where
  pub provider : String
  pub normalize :
      (ℕ → ℕ)
      → (tenant_id service_ref : String) → Dict String
      → Body
      → Result String (List DoraEvent)

abbrev pub provider_key : FoldLibrary → String → String
provider_key lib provider = lib.to_lower (trim_space provider)

module _ (lib : FoldLibrary) {Body : Type 0} where
  unfoldable pub resolve_normalizer : String → Dict (Normalizer Body) → Option (Normalizer Body)
  resolve_normalizer provider r = lookup (provider_key lib provider) r

  -- `none` is the panic on a provider that is registered.
  unfoldable pub register_normalizer :
      Normalizer Body → Dict (Normalizer Body) → Option (Dict (Normalizer Body))
  register_normalizer n r =
      let key = provider_key lib n.provider in
      if is_some (lookup key r) then none else some (insert key n r)

unfoldable pub providers : {Body : Type 0} → Dict (Normalizer Body) → List String
providers r = sort le_text (map (λ entry. entry.0) r)
