-- ===== src/Dora/Tests.antt =====
-- A GitHub push that is delivered twice, that is lost and replayed, and a deployment with an incident.
use mathlib.Core.List.{Memᴰ}
use release_engine.Prelude.Int.{pos}
use release_engine.Prelude.{
  ◌⊎◌, ◌+◌, ◌↔◌, All, ◌≤◌, trim_space, true, AllEntries, ℕ, zero, suc, String, ◌≡◌, ◌≢◌, ◌<◌, refl,
  ap, false, none, some, List, [], ◌∷◌, Dict, insert, lookup, lookup-insert, Distinct,
  Distinct-insert, ok, err, ◌==◌, arith,
}
use release_engine.Dora.Events.{
  is_event_type, validate_event, resolve_normalizer, register_normalizer, Normalizer, FoldLibrary,
}
use release_engine.Dora.Providers.Commits.{
  github_events, gitlab_normalizer, github_normalizer, CommitLibrary,
}
use release_engine.Dora.Providers.Incidents.{
  datadog_normalizer, opsgenie_normalizer, IncidentLibrary,
}
use release_engine.Dora.Providers.Faithful.{IsFaithful, Alike}
use release_engine.Dora.Headers.{HeaderLibrary, header_maps}
use release_engine.Dora.Headers.Laws.{IsCodec}
use release_engine.Dora.Store.{insert_loop, EventRow, DoraTables, Statements}
use release_engine.Dora.Webhook.{
  webhook_events, processed, ingest_webhook, WebhookRequest, new_dora_registry, Backend,
}
use release_engine.Dora.Webhook.Registry.{new_dora_registry-AllFaithful}
use release_engine.Dora.Webhook.Laws.{ingest_webhook-IsOfCaller, IsOfCaller}
use release_engine.Dora.Store.Stored.{IsFresh}
use release_engine.Dora.Admission.{authorize, DoraCaller}
use release_engine.Dora.Replay.{replay_dead_letter, ReplayRequest, ReplayBackend}
use release_engine.Access.Auth.{AuthClaims}
use release_engine.Dora.Rates.{deployments_in, CfrReads, rows_where, query_cfr_stats, Window}
use release_engine.Dora.Replay.Restores.{replay_dead_letter-ingest_webhook}
use release_engine.Dora.Replay.Laws.{replay_dead_letter-any_caller}
use release_engine.Dora.Admission.Laws.{authorize_iff, IsAdmitted}
use release_engine.Dora.Rates.Laws.{query_cfr_stats-IsRate}
use release_engine.Dora.Webhook.Redelivery.{ingest_webhook_idem}

abbrev plain_folds : FoldLibrary
plain_folds = record { to_lower = λ s. s; equal_fold = λ a b. a == b }

abbrev push_commits : CommitLibrary Unit
push_commits = record {
  folds = plain_folds;
  github_push = λ body. ok (record {
    ref = "main";
    commits = record { id = "abc"; timestamp = ""; message = "m" } ∷ [];
  });
  github_pull_request = λ body. err "no";
  gitlab_push = λ body. err "no";
  gitlab_merge_request = λ body. err "no";
  parse_time = λ text. err "no";
  digits = λ n. "0";
}

abbrev no_incidents : IncidentLibrary Unit
no_incidents = record {
  folds = plain_folds;
  opsgenie = λ body. err "no";
  datadog = λ body. err "no";
  parse_time = λ text. err "no";
}

-- A jsonb keeps one value of each key.
dedupe : Dict (List String) → Dict (List String)
dedupe [] = []
dedupe ((k, v) ∷ m) = insert k v (dedupe m)

abbrev stored_headers : HeaderLibrary
stored_headers = record {
  Stored = Dict (List String);
  is_blank = λ s. false;
  encode = λ m. m;
  not_object = λ s. none;
  decode_multi = λ s. some (dedupe s);
  decode_flat = λ s. none;
}

dedupe-Distinct : (m : Dict (List String)) → Distinct (dedupe m)
unfolding dedupe
dedupe-Distinct [] = tt
dedupe-Distinct ((k, v) ∷ m) = Distinct-insert k v (dedupe m) (dedupe-Distinct m)

dedupe-Alike : (m : Dict (List String)) → Alike (dedupe m) m
unfolding dedupe lookup
dedupe-Alike [] name = refl
dedupe-Alike ((k, v) ∷ m) name = rw (lookup-insert, dedupe-Alike m name) refl

stored_headers-IsCodec : IsCodec stored_headers
stored_headers-IsCodec = record {
  filled = λ m. refl;
  object = λ m. refl;
  reads = λ m. (dedupe m, refl, dedupe-Distinct m, dedupe-Alike m);
}

-- Texts of different lengths for uuids.
tally : ℕ → String
tally zero = String.[]
tally (suc n) = String.◌∷◌ "x" (tally n)

chars : String → ℕ
chars String.[] = 0
chars (String.◌∷◌ c s) = suc (chars s)

chars-tally : (n : ℕ) → chars (tally n) ≡ n
unfolding chars tally
chars-tally zero = refl
chars-tally (suc n) = ap suc (chars-tally n)

tally-apart : (j k : ℕ) → j < k → tally j ≢ tally k
tally-apart j k less same =
    let counts = ap chars same in omega (arith, chars-tally j, chars-tally k)

abbrev statements : Statements
statements = record {
  fault = λ i. none;
  fresh = tally;
  check_violation = "check";
  now = 7;
  marshal = λ p. ok "{}";
}

abbrev working : Backend
working = record {
  pool = true;
  acquires = true;
  acquires_letter = true;
  letter_fault = false;
  letter_id = "l1";
  clock = λ i. 5;
  statements = statements;
}

-- The same database when it gives no connection for the events.
abbrev failing : Backend
failing = record working { acquires = false }

abbrev no_dora_tables : DoraTables (Dict (List String)) Unit
no_dora_tables = record { events = []; letters = [] }

abbrev registry : Dict (Normalizer Unit)
registry =
    ("github", github_normalizer push_commits)
    ∷ ("gitlab", gitlab_normalizer push_commits)
    ∷ ("opsgenie", opsgenie_normalizer no_incidents)
    ∷ ("datadog", datadog_normalizer no_incidents)
    ∷ []

registered : new_dora_registry plain_folds push_commits no_incidents ≡ some registry
unfolding new_dora_registry register_normalizer insert lookup trim_space
registered = refl

registry-AllFaithful : AllEntries (λ name n. IsFaithful n) registry
registry-AllFaithful =
    new_dora_registry-AllFaithful plain_folds push_commits no_incidents registry registered

new_dora_registry-AllFaithful_example : AllEntries (λ name n. IsFaithful n) registry
new_dora_registry-AllFaithful_example =
    new_dora_registry-AllFaithful plain_folds push_commits no_incidents registry registered

abbrev push_request : WebhookRequest Unit
push_request = record {
  provider = "github";
  tenant_id = "t1";
  service_ref = "svc";
  body = some tt;
  headers = ("x-github-event", "push" ∷ []) ∷ ("x-github-delivery", "d1" ∷ []) ∷ [];
}

push_stored :
    (ingest_webhook plain_folds stored_headers registry working push_request no_dora_tables).1
    ≡ processed 1
unfolding ingest_webhook trim_space resolve_normalizer lookup github_events header_maps insert
    validate_event is_event_type insert_loop
push_stored = refl

statements-IsFresh : IsFresh statements 0 []
statements-IsFresh = record { unused = λ j le row m. elim m [ ]; apart = tally-apart }

ingest_webhook_idem_example :
    (ingest_webhook plain_folds stored_headers registry failing push_request
      (ingest_webhook plain_folds stored_headers registry working push_request
        no_dora_tables).0).0.events
    ≡ (ingest_webhook plain_folds stored_headers registry working push_request
        no_dora_tables).0.events
unfolding trim_space resolve_normalizer lookup github_events header_maps insert validate_event
    is_event_type webhook_events
ingest_webhook_idem_example =
    ingest_webhook_idem plain_folds stored_headers registry working failing push_request
      no_dora_tables 1 registry-AllFaithful (λ body e. (("d1:commit.pushed:abc:0", refl), tt))
      statements-IsFresh push_stored

ingest_webhook-IsOfCaller_example :
    All
      (λ row. Memᴰ row [] ⊎ IsOfCaller "t1" "svc" row)
      (ingest_webhook plain_folds stored_headers registry working push_request
        no_dora_tables).0.events
unfolding trim_space
ingest_webhook-IsOfCaller_example =
    ingest_webhook-IsOfCaller plain_folds stored_headers registry working push_request
      no_dora_tables registry-AllFaithful

-- A caller without claims.
abbrev stranger : DoraCaller
stranger = record {
  claims = none;
  brand_id = "";
  group_id = "";
  pool = true;
  acquires = true;
  query_fails = false;
  brands = [];
  now = 9;
}

abbrev replaying : ReplayBackend
replaying = record { backend = working; select_fails = false; update_fails = false; job_id = "r1" }

abbrev replay_of_push : ReplayRequest
replay_of_push = record { id = "l1"; tenant_id = "t1"; service_ref = "svc" }

replay_dead_letter-ingest_webhook_example :
    (replay_dead_letter plain_folds stored_headers registry replaying false stranger replay_of_push
      (ingest_webhook plain_folds stored_headers registry failing push_request
        no_dora_tables).0).0.events
    ≡ (ingest_webhook plain_folds stored_headers registry working push_request
        no_dora_tables).0.events
unfolding trim_space
replay_dead_letter-ingest_webhook_example =
    replay_dead_letter-ingest_webhook plain_folds stored_headers registry failing replaying stranger
      push_request tt replay_of_push no_dora_tables registry-AllFaithful stored_headers-IsCodec
      ((λ e. cc), refl, ((λ e. cc), refl, tt)) (refl, refl, refl, refl) refl refl refl refl
      (record {
        provider = refl;
        tenant = refl;
        service = refl;
        body_read = refl;
        id = refl;
        id_given = refl;
        same_tenant = refl;
        same_service = refl;
        new_letter = tt;
      })

abbrev member : AuthClaims
member = record {
  subject = "u";
  tenant_id = "t1";
  role = "dev";
  brand_ids = "b1" ∷ [];
  group_ids = [];
  issuer = "";
  audience = "";
  expires_at = pos 0;
  issued_at = pos 0;
}

abbrev insider : DoraCaller
insider = record stranger { claims = some member; brand_id = "b1" }

replay_dead_letter-any_caller_example :
    (replay_dead_letter plain_folds stored_headers registry replaying false stranger replay_of_push
      (ingest_webhook plain_folds stored_headers registry failing push_request no_dora_tables).0).0
    ≡ (replay_dead_letter plain_folds stored_headers registry replaying false insider replay_of_push
        (ingest_webhook plain_folds stored_headers registry failing push_request
          no_dora_tables).0).0
replay_dead_letter-any_caller_example =
    replay_dead_letter-any_caller plain_folds stored_headers registry replaying stranger insider
      replay_of_push
      (ingest_webhook plain_folds stored_headers registry failing push_request no_dora_tables).0

authorize_iff_example : (authorize insider "t1" ≡ none) ↔ IsAdmitted insider member "t1"
authorize_iff_example = authorize_iff insider member "t1" refl

abbrev deployed : EventRow
deployed = record {
  id = "e1";
  tenant_id = "t1";
  event_type = "deployment.succeeded";
  event_source = "re";
  service_ref = some "svc";
  environment = some "prod";
  correlation_key = some "abc";
  source_event_id = none;
  event_timestamp = 10;
  ingested_at = 10;
  payload = "{}";
}

-- Half an hour later.
abbrev broken : EventRow
broken = record deployed {
  id = "e2";
  event_type = "incident.opened";
  correlation_key = some "inc";
  event_timestamp = 1_800_000_000_010;
}

abbrev first_day : Window
first_day = record { tenant_id = "t1"; service_ref = "svc"; start = 0; end_at = 86_400_000_000_000 }

abbrev cfr_reads : CfrReads
cfr_reads = record {
  at_deployments = deployed ∷ [];
  at_incidents = deployed ∷ broken ∷ [];
  at_correlation = deployed ∷ broken ∷ [];
  at_failures = deployed ∷ broken ∷ [];
}

one_failure : (query_cfr_stats cfr_reads first_day).percent ≡ some (1, 1)
unfolding query_cfr_stats rows_where
one_failure = refl

query_cfr_stats-IsRate_example :
    (1 ≤ 1)
    × (0 < 1)
    × ((query_cfr_stats cfr_reads first_day).explicit_correlations
          + (query_cfr_stats cfr_reads first_day).heuristic_correlations
        ≤ (query_cfr_stats cfr_reads first_day).deployment_count)
unfolding deployments_in rows_where
query_cfr_stats-IsRate_example =
    query_cfr_stats-IsRate cfr_reads first_day 1 1 (omega arith) (omega arith) one_failure
