-- ===== src/Dora/Providers/Incidents/Laws.antt =====
-- The Opsgenie and Datadog normalizers are faithful.
use release_engine.Prelude.{
  ◌⊎◌, ℕ, String, refl, inl, inr, Bool-cases, Result-cases, ◌==◌, ◌≡◌, trim_space, Dict,
}
use release_engine.Dora.Events.{is_event_type}
use release_engine.Dora.Providers.Faithful.{keys_of, IsFrom, AllOk, IsFaithful, Alike, header-Alike}
use release_engine.Dora.Providers.Incidents.{
  incident_event, resolved, opened, ignored, datadog_kind, opsgenie_kind, IncidentKind,
  datadog_normalizer, opsgenie_normalizer, datadog_events, opsgenie_events, datadog_incident,
  opsgenie_incident, first_header, IncidentLibrary,
}

first_header-Alike :
    (a b c : String) (h k : Dict String) → Alike h k → first_header a b c h ≡ first_header a b c k
first_header-Alike a b c h k same =
    rw (header-Alike a h k same, header-Alike b h k same, header-Alike c h k same) refl

kinds : (k : IncidentKind) → (k ≡ ignored) ⊎ ((k ≡ opened) ⊎ (k ≡ resolved))
kinds ignored = inl refl
kinds opened = inr (inl refl)
kinds resolved = inr (inr refl)

module _ {Body : Type 0} (lib : IncidentLibrary Body) where
  opsgenie_incident-AllOk :
      (clock : ℕ → ℕ) (t s delivery : String) (body : Body)
      → AllOk (IsFrom "opsgenie" t s) (opsgenie_incident lib clock t s delivery body)
  unfolding opsgenie_incident is_event_type
  opsgenie_incident-AllOk clock t s delivery body = elim (Result-cases (lib.opsgenie body)) [
    | inr (e, bad) ↦ rw (bad, opsgenie_incident) tt
    | inl (p, good) ↦ elim (Bool-cases (trim_space p.id == "")) [
      | inl blank ↦ rw (good, blank, opsgenie_incident) tt
      | inr named ↦ elim (kinds (opsgenie_kind lib p.action)) [
        | inl e ↦ rw (good, named, e, opsgenie_incident) tt
        | inr (inl e) ↦
            rw (good, named, e, opsgenie_incident)
              (record { tenant = refl; service = refl; from = refl; kind = refl; other = refl }, tt)
        | inr (inr e) ↦
            rw (good, named, e, opsgenie_incident)
              (record { tenant = refl; service = refl; from = refl; kind = refl; other = refl }, tt)
      ]
    ]
  ]

  datadog_incident-AllOk :
      (clock : ℕ → ℕ) (t s delivery : String) (body : Body)
      → AllOk (IsFrom "datadog" t s) (datadog_incident lib clock t s delivery body)
  unfolding datadog_incident is_event_type
  datadog_incident-AllOk clock t s delivery body = elim (Result-cases (lib.datadog body)) [
    | inr (e, bad) ↦ rw (bad, datadog_incident) tt
    | inl (p, good) ↦ elim (Bool-cases (trim_space p.id == "")) [
      | inl blank ↦ rw (good, blank, datadog_incident) tt
      | inr named ↦ elim (kinds (datadog_kind lib p.status p.event_type)) [
        | inl e ↦ rw (good, named, e, datadog_incident) tt
        | inr (inl e) ↦
            rw (good, named, e, datadog_incident)
              (record { tenant = refl; service = refl; from = refl; kind = refl; other = refl }, tt)
        | inr (inr e) ↦
            rw (good, named, e, datadog_incident)
              (record { tenant = refl; service = refl; from = refl; kind = refl; other = refl }, tt)
      ]
    ]
  ]

  keys_of-opsgenie_incident :
      (c k : ℕ → ℕ) (t s delivery : String) (body : Body)
      → keys_of (opsgenie_incident lib c t s delivery body)
        ≡ keys_of (opsgenie_incident lib k t s delivery body)
  unfolding opsgenie_incident incident_event
  keys_of-opsgenie_incident c k t s delivery body = elim (Result-cases (lib.opsgenie body)) [
    | inr (e, bad) ↦ rw (bad, opsgenie_incident) refl
    | inl (p, good) ↦ elim (Bool-cases (trim_space p.id == "")) [
      | inl blank ↦ rw (good, blank, opsgenie_incident) refl
      | inr named ↦ elim (kinds (opsgenie_kind lib p.action)) [
        | inl e ↦ rw (good, named, e, opsgenie_incident) refl
        | inr (inl e) ↦ rw (good, named, e, opsgenie_incident) refl
        | inr (inr e) ↦ rw (good, named, e, opsgenie_incident) refl
      ]
    ]
  ]

  keys_of-datadog_incident :
      (c k : ℕ → ℕ) (t s delivery : String) (body : Body)
      → keys_of (datadog_incident lib c t s delivery body)
        ≡ keys_of (datadog_incident lib k t s delivery body)
  unfolding datadog_incident incident_event
  keys_of-datadog_incident c k t s delivery body = elim (Result-cases (lib.datadog body)) [
    | inr (e, bad) ↦ rw (bad, datadog_incident) refl
    | inl (p, good) ↦ elim (Bool-cases (trim_space p.id == "")) [
      | inl blank ↦ rw (good, blank, datadog_incident) refl
      | inr named ↦ elim (kinds (datadog_kind lib p.status p.event_type)) [
        | inl e ↦ rw (good, named, e, datadog_incident) refl
        | inr (inl e) ↦ rw (good, named, e, datadog_incident) refl
        | inr (inr e) ↦ rw (good, named, e, datadog_incident) refl
      ]
    ]
  ]

  pub opsgenie-IsFaithful : IsFaithful (opsgenie_normalizer lib)
  unfolding opsgenie_events
  opsgenie-IsFaithful = record {
    stable = λ c d t s h body.
        keys_of-opsgenie_incident c d t s
          (first_header "x-request-id" "x-opsgenie-webhook-id" "x-opsgenie-delivery" h) body;
    from = λ clock t s h body.
        opsgenie_incident-AllOk clock t s
          (first_header "x-request-id" "x-opsgenie-webhook-id" "x-opsgenie-delivery" h) body;
    reads = λ clock t s h k body same.
        rw
          (first_header-Alike "x-request-id" "x-opsgenie-webhook-id" "x-opsgenie-delivery" h k same)
          refl;
  }

  pub datadog-IsFaithful : IsFaithful (datadog_normalizer lib)
  unfolding datadog_events
  datadog-IsFaithful = record {
    stable = λ c d t s h body.
        keys_of-datadog_incident c d t s
          (first_header "dd-request-id" "x-datadog-request-id" "x-datadog-delivery" h) body;
    from = λ clock t s h body.
        datadog_incident-AllOk clock t s
          (first_header "dd-request-id" "x-datadog-request-id" "x-datadog-delivery" h) body;
    reads = λ clock t s h k body same.
        rw (first_header-Alike "dd-request-id" "x-datadog-request-id" "x-datadog-delivery" h k same)
          refl;
  }
