-- ===== src/StepApi/Tests.antt =====
-- A run that parks its gate step, fresh or after another run of the same attempt.
use release_engine.Prelude.{
  ◌==◌, if◌then◌else◌, String, ◌≡◌, refl, inr, Bool, false, none, some, [], ◌∷◌, is_some, Result,
  ok, err, arith, eq_iff,
}
use release_engine.Jobs.Table.{Job, StepRow, ok_status, queued}
use release_engine.Jobs.Claim.{is_runnable}
use release_engine.Connectors.Types.{Connector}
use release_engine.StepApi.Steps.{Run, park, persist, is_same_step}
use release_engine.StepApi.Approvals.{Decision, poll}
use release_engine.StepApi.Approvals.Laws.{park_blocks_claim, poll_foreign}
use release_engine.StepApi.Connect.{Adapter, ConnectorRequest, Vault, with_context, call_connector}
use release_engine.StepApi.Connect.Laws.{managed, call_connector_isolated}

abbrev second_run : Run
second_run = record { job_id = "j1"; run_id = "r2"; attempt = 1 }

-- The row that the first run of the attempt left.
abbrev left_row : StepRow
left_row = record {
  id = 4;
  job_id = "j1";
  run_id = "r1";
  attempt = 1;
  step_key = "gate";
  status = ok_status;
  error_code = none;
  error_message = none;
}

abbrev job : Job
job = record {
  id = "j1";
  tenant_id = "t1";
  path_key = "infra";
  idempotency_key = "k1";
  params_json = "";
  schedule = none;
  state = queued;
  attempt = 1;
  max_attempts = 3;
  backoff_policy = record { base_seconds = none; max_seconds = none };
  owner_id = none;
  run_id = "r2";
  lease_expires_at = none;
  next_run_at = some 5;
  accepted_at = 1;
  last_error_code = none;
  last_error_message = none;
  created_by = none;
  created_at = 1;
  started_at = none;
  finished_at = none;
  updated_at = 1;
}

abbrev decision : Decision
decision = record {
  job_id = "j1";
  step_id = 7;
  run_id = "r2";
  decision = "approved";
  approver = "ann";
  justification = none;
  idempotency_key = "d1";
  created_at = 9;
}

park_blocks_claim_example :
    is_runnable 10 (park false false 7 second_run "gate" (left_row ∷ [])).0 job ≡ false
unfolding park persist
park_blocks_claim_example =
    park_blocks_claim 7 second_run "gate" (left_row ∷ []) false false 10 job refl tt

poll_foreign_example :
    poll second_run "gate" (park false false 7 second_run "gate" (left_row ∷ [])).0 (decision ∷ [])
    ≡ none
unfolding is_same_step
poll_foreign_example =
    poll_foreign 7 second_run "gate" (left_row ∷ []) false false (decision ∷ []) refl
      (inr (ground (arith, eq_iff "r1" "r2")), tt)

-- A connector that answers with whether it was given a token.
abbrev token_reader : Connector String Bool
token_reader = record {
  key = "git-github";
  type_of = none;
  required_secrets = some (λ operation. "token" ∷ []);
  validate = λ operation input. none;
  execute = λ operation input secrets. record {
    result = some (record { status = "success"; output = is_some secrets; error = none });
    error = none;
  };
  close = none;
}

abbrev adapter : Adapter String Bool
adapter = record {
  resolved_connectors = some (("git", token_reader) ∷ []);
  family_registry = none;
  vault_manager = none;
  caller = with_context "t1";
  tenant_id = "";
}

-- Every tenant has a vault, or only the run's.
abbrev every_vault : String → Result String Vault
every_vault tenant = ok (λ keys. ok (("token", "s") ∷ []))

abbrev own_vault : String → Result String Vault
own_vault tenant = if tenant == "t1" then ok (λ keys. ok (("token", "s") ∷ [])) else err "none"

abbrev request : ConnectorRequest String
request = record { connector = "git"; impl_key = ""; operation = "read_file"; input = "in" }

call_connector_isolated_example :
    call_connector (managed adapter every_vault) request
    ≡ call_connector (managed adapter own_vault) request
call_connector_isolated_example =
    call_connector_isolated adapter every_vault own_vault (λ t found. agree t (same_tenant t found))
      (λ found given. absurd cc) request
  where
    same_tenant : (t : String) → with_context "t1" ≡ with_context t → ◌≡◌ {A = String} "t1" t
    same_tenant t found = cc

    agree : (t : String) → ◌≡◌ {A = String} "t1" t → every_vault t ≡ own_vault t
    agree t same = rw (← same) refl
