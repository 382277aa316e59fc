-- ===== src/Dora/Providers/Incidents.antt =====
-- internal/dora/opsgenie_normalizer.go and internal/dora/datadog_normalizer.go.
pub mod Laws
use release_engine.Prelude.{
  ℕ, String, ◌<>◌, ◌||◌, some, List, [], ◌∷◌, ◌==◌, if◌then◌else◌, Dict, any, trim_space, has_part,
  Result, ok, err,
}
use release_engine.Dora.Events.{DoraEvent, FoldLibrary, Normalizer}
use release_engine.Dora.Providers.Commits.{header}

pub record OpsgeniePayload : Type 0 where
  pub action : String
  pub id : String
  pub created_at : String
  pub updated_at : String

pub record DatadogPayload : Type 0 where
  pub event_type : String
  pub id : String
  pub status : String
  pub created_at : String
  pub updated_at : String

-- The library's, as for the commits.
pub record IncidentLibrary (Body : Type 0) : Type 0 where
  pub folds : FoldLibrary
  pub opsgenie : Body → Result String OpsgeniePayload
  pub datadog : Body → Result String DatadogPayload
  pub parse_time : String → Result String ℕ

-- What an incident's webhook is taken for.
pub data IncidentKind : Type 0 where
  resolved opened ignored : IncidentKind

-- The first of three headers that is not blank.
abbrev first_header : String → String → String → Dict String → String
first_header a b c headers =
    let one = header a headers in
    let two = header b headers in
    if one == "" then if two == "" then header c headers else two else one

module _ {Body : Type 0} (lib : IncidentLibrary Body) where
  -- A timestamp that the payload has and that can be parsed, or the one given.
  time_else : String → ℕ → ℕ
  time_else text default =
      let raw = trim_space text in
      if raw == "" then default else elim (lib.parse_time raw) [ ok t ↦ t | err e ↦ default ]

  incident_event :
      (source tenant_id service_ref event_type incident_id delivery_id : String)
      → ℕ
      → Dict String
      → DoraEvent
  incident_event source tenant_id service_ref event_type incident_id delivery_id ts payload =
      record {
        tenant_id = tenant_id;
        event_type = event_type;
        event_source = source;
        service_ref = service_ref;
        environment = "";
        correlation_key = incident_id;
        source_event_id =
            if delivery_id == ""
            then ""
            else delivery_id <> (":" <> (event_type <> (":" <> incident_id)));
        event_timestamp = ts;
        payload = some payload;
      }

  -- `switch action`
  unfoldable pub opsgenie_kind : String → IncidentKind
  opsgenie_kind text =
      let action = lib.folds.to_lower (trim_space text) in
      if any (λ w. action == w) ("create" ∷ "created" ∷ "opened" ∷ "open" ∷ [])
      then opened
      else if any (λ w. action == w) ("close" ∷ "closed" ∷ "resolved" ∷ "acknowledged" ∷ [])
      then resolved
      else ignored

  -- The body with the identifier of the delivery.
  opsgenie_incident :
      (ℕ → ℕ) → (tenant_id service_ref delivery : String) → Body → Result String (List DoraEvent)
  unfolding incident_event time_else opsgenie_kind
  opsgenie_incident clock tenant_id service_ref delivery body = elim (lib.opsgenie body) [
    | err e ↦ err ("parse opsgenie payload: " <> e)
    | ok p ↦
        let incident_id = trim_space p.id in
        let created = time_else p.created_at (clock 0) in
        let payload = ("incident_id", incident_id) ∷ ("action", p.action) ∷ [] in
        if incident_id == ""
        then err "opsgenie payload missing alert id"
        else elim (opsgenie_kind p.action) [
          | ignored ↦ ok []
          | opened ↦ ok (
              incident_event "opsgenie" tenant_id service_ref "incident.opened" incident_id delivery
                created payload
              ∷ [])
          | resolved ↦ ok (
              incident_event "opsgenie" tenant_id service_ref "incident.resolved" incident_id
                delivery (time_else p.updated_at created) payload
              ∷ [])
        ]
  ]

  unfoldable pub opsgenie_events :
      (ℕ → ℕ)
      → (tenant_id service_ref : String) → Dict String
      → Body
      → Result String (List DoraEvent)
  unfolding opsgenie_incident
  opsgenie_events clock tenant_id service_ref headers body =
      opsgenie_incident clock tenant_id service_ref
        (first_header "x-request-id" "x-opsgenie-webhook-id" "x-opsgenie-delivery" headers) body

  -- The cases of the `switch` of the Datadog normalizer.
  unfoldable pub datadog_kind : (status hint : String) → IncidentKind
  datadog_kind status_text hint_text =
      let status = lib.folds.to_lower (trim_space status_text) in
      let hint = lib.folds.to_lower (trim_space hint_text) in
      if has_part "resolve" hint || has_part "resolved" status || has_part "ok" status
      then resolved
      else if has_part "open" hint
          || has_part "trigger" hint
          || has_part "trigger" status
          || has_part "alert" status
      then opened
      else ignored

  -- The body with the identifier of the delivery.
  datadog_incident :
      (ℕ → ℕ) → (tenant_id service_ref delivery : String) → Body → Result String (List DoraEvent)
  unfolding incident_event time_else datadog_kind
  datadog_incident clock tenant_id service_ref delivery body = elim (lib.datadog body) [
    | err e ↦ err ("parse datadog payload: " <> e)
    | ok p ↦
        let incident_id = trim_space p.id in
        let created = time_else p.created_at (clock 0) in
        let payload =
          ("incident_id", incident_id) ∷ ("status", p.status) ∷ ("event_type", p.event_type) ∷ [] in
        if incident_id == ""
        then err "datadog payload missing id"
        else elim (datadog_kind p.status p.event_type) [
          | ignored ↦ ok []
          | opened ↦ ok (
              incident_event "datadog" tenant_id service_ref "incident.opened" incident_id delivery
                created payload
              ∷ [])
          | resolved ↦ ok (
              incident_event "datadog" tenant_id service_ref "incident.resolved" incident_id
                delivery (time_else p.updated_at created) payload
              ∷ [])
        ]
  ]

  unfoldable pub datadog_events :
      (ℕ → ℕ)
      → (tenant_id service_ref : String) → Dict String
      → Body
      → Result String (List DoraEvent)
  unfolding datadog_incident
  datadog_events clock tenant_id service_ref headers body =
      datadog_incident clock tenant_id service_ref
        (first_header "dd-request-id" "x-datadog-request-id" "x-datadog-delivery" headers) body

  abbrev pub opsgenie_normalizer : Normalizer Body
  opsgenie_normalizer = record { provider = "opsgenie"; normalize = opsgenie_events }

  abbrev pub datadog_normalizer : Normalizer Body
  datadog_normalizer = record { provider = "datadog"; normalize = datadog_events }
