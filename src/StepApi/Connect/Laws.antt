-- ===== src/StepApi/Connect/Laws.antt =====
-- Which secrets a connector call can depend on.
use release_engine.Prelude.{
  eq_iff, eq_iff, ◌==◌, Bool-cases, arith, ◌≢◌, inl, inr, String, ◌≡◌, refl, some, List, [], ◌∷◌,
  Option-cases, Result-cases, Result, ok,
}
use release_engine.Connectors.Types.{Connector}
use release_engine.StepApi.Connect.{
  with_context, without_context, no_module, ModuleRef, ModuleRef, no_module, with_context, Adapter,
  ConnectorRequest, Vault, secrets_for, select, tenant_of, with_secrets, call_connector,
  execute_with,
}

module _ {I O : Type 0} (a : Adapter I O) where
  abbrev pub managed : (String → Result String Vault) → Adapter I O
  managed manager = record a { vault_manager = some manager }

  tenant_of-managed : (v : String → Result String Vault) → tenant_of (managed v) ≡ tenant_of a
  unfolding tenant_of
  tenant_of-managed v = refl

  select_managed :
      (v : String → Result String Vault) (req : ConnectorRequest I)
      → select (managed v) req ≡ select a req
  unfolding select
  select_managed v req = refl

  module _ (v w : String → Result String Vault)
      (agree_context : (t : String) → a.caller ≡ with_context t → v t ≡ w t)
      (agree_run : a.caller ≡ no_module → a.tenant_id ≢ "" → v a.tenant_id ≡ w a.tenant_id) where
    agree : (t : String) → tenant_of a ≡ ok t → v t ≡ w t
    unfolding tenant_of
    agree t h = by_caller a.caller refl
      where
        by_caller : (m : ModuleRef) → a.caller ≡ m → v t ≡ w t
        by_caller (with_context u) e =
            let same : u ≡ t = ground (arith, rw (e, tenant_of) at h) in
            agree_context t (rw (← same) e)
        by_caller without_context e = absurd (let stuck = rw (e, tenant_of) at h in cc)
        by_caller no_module e = elim (Bool-cases (a.tenant_id == "")) [
          | inl empty ↦ absurd (let stuck = rw (e, empty, tenant_of) at h in cc)
          | inr given ↦
              let same : a.tenant_id ≡ t = ground (arith, rw (e, given, tenant_of) at h) in
              rw (← same) (agree_run e (ground (arith, given, eq_iff a.tenant_id "")))
        ]

    with_secrets_isolated :
        (c : Connector I O) (req : ConnectorRequest I) (keys : List String)
        → with_secrets (managed v) c req keys ≡ with_secrets (managed w) c req keys
    unfolding with_secrets
    with_secrets_isolated c req keys = elim (Result-cases (tenant_of a)) [
      | inl (t, e) ↦ rw (tenant_of-managed v, tenant_of-managed w, e, agree t e, with_secrets) refl
      | inr (code, e) ↦ rw (tenant_of-managed v, tenant_of-managed w, e, with_secrets) refl
    ]

    execute_isolated :
        (c : Connector I O) (req : ConnectorRequest I) (keys : List String)
        → execute_with (managed v) c req keys ≡ execute_with (managed w) c req keys
    execute_isolated c req [] = refl
    execute_isolated c req (key ∷ keys) = with_secrets_isolated c req (key ∷ keys)

    -- A connector call reads no other tenant's vault: two vault managers that agree on the tenant
    -- of the module's context, where the module has one, and on the run's tenant, where it is not
    -- empty and there is no module, lead to the same answer.
    pub call_connector_isolated :
        (req : ConnectorRequest I) → call_connector (managed v) req ≡ call_connector (managed w) req
    unfolding call_connector
    call_connector_isolated req = elim (Option-cases (select a req)) [
      | inl e ↦ rw (select_managed v req, select_managed w req, e, call_connector) refl
      | inr (c, e) ↦ elim (Option-cases (c.validate req.operation req.input)) [
        | inr (bad, f) ↦ rw (select_managed v req, select_managed w req, e, f, call_connector) refl
        | inl f ↦
            rw (select_managed v req, select_managed w req, e, f, call_connector)
              (execute_isolated c req (secrets_for c req.operation))
      ]
    ]
