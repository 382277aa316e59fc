-- ===== src/Intake/Tests.antt =====
-- A tenant whose request is accepted, sent again, and refused under a key of another path.
use release_engine.Prelude.{
  ◌+◌, is_some, insert, lookup, trim_space, String, ◌≡◌, ◌≢◌, ◌↔◌, ◌⊎◌, ◌*◌, ◌^◌, refl, true, false,
  none, some, [], ◌∷◌, ok, err, arith, eq_iff, lookup, ◌<>◌, ◌==◌, if◌then◌else◌,
}
use release_engine.Jobs.Table.{Job, project, or_default}
use release_engine.Jobs.Claim.{is_runnable}
use release_engine.Jobs.History.Invariant.{AllRows}
use release_engine.Intake.Request.{
  valid_idempotency_key, text_length, all_key_chars, Request, normalised,
}
use release_engine.Intake.Callback.{Url, Ipv4, Ip, NetLibrary, valid_callback_url}
use release_engine.Intake.Callback.Laws.{IsInBlock, IsPrivate, IsNetAddress, valid_callback_url_iff}
use release_engine.Intake.Store.{
  Tables, no_intake_faults, replayed, conflicted, unique_violation, new_record, create_job_with_db,
  insert_job, find_key, has_tenant_key, new_job,
}
use release_engine.Intake.Store.History.{run, intakes, create_job_replays, run_intake-AllRows}
use release_engine.Intake.Store.Lost.{create_job_loses}
use release_engine.Intake.Store.Refines.{create_job_refines, promise, promised}
use release_engine.Intake.CreateJob.{
  Libraries, Handler, Draw, create_job, admit, validate, store_job,
}
use release_engine.Intake.CreateJob.Stores.{create_job_stores, IsSubmitted}
use release_engine.Intake.CreateJob.Refusals.{create_job_unchanged}

abbrev encode : String → String
encode = λ params. params

abbrev first_request : Request String
first_request = record {
  tenant_id = "t1";
  path_key = "infra";
  params = "p";
  idempotency_key = "k1";
  callback_url = "";
  max_attempts = 3;
  first_run_at = none;
  schedule = "";
}

-- The same key on another path.
abbrev other_path : Request String
other_path = record first_request { path_key = "deploy" }

abbrev no_tables : Tables
no_tables = record { db = record { jobs = []; jobs_read = []; outbox = []; steps = [] }; keys = [] }

abbrev one_job : Tables
one_job = (create_job_with_db encode no_intake_faults 5 "j1" "r1" first_request "f1" 5 no_tables).0

create_job_replays_example :
    let t = run encode one_job [] in
    create_job_with_db encode no_intake_faults 9 "j2" "r2" first_request "f2" 9 t ≡ (
      t,
      ok (
          if "f1" == "f2"
          then replayed (new_record encode 5 "j1" first_request "f1" 5)
          else conflicted (new_record encode 5 "j1" first_request "f1" 5)),
    )
unfolding create_job_with_db insert_job find_key has_tenant_key lookup
create_job_replays_example =
    create_job_replays encode no_intake_faults no_intake_faults 5 9 "j1" "r1" "j2" "r2"
      first_request first_request "f1" "f2" 5 9 no_tables
      (new_record encode 5 "j1" first_request "f1" 5) [] refl refl refl refl refl refl refl

run_intake-AllRows_example :
    AllRows
      (run encode no_tables (intakes no_intake_faults 5 "j1" "r1" first_request "f1" 5 ∷ [])).db
run_intake-AllRows_example =
    run_intake-AllRows encode no_tables
      (intakes no_intake_faults 5 "j1" "r1" first_request "f1" 5 ∷ []) (tt, tt) tt

create_job_loses_example :
    let (t, refused) =
      create_job_with_db encode no_intake_faults 9 "j2" "r2" other_path "f2" 9 one_job in
    let rec = new_record encode 9 "j2" other_path "f2" 9 in
    (refused ≡ err unique_violation)
    × (create_job_with_db encode no_intake_faults 12 "j3" "r3" other_path "f2" 12 t
        ≡ (t, ok (replayed rec)))
    × (lookup rec.envelope.job_id t.db.jobs ≡ none)
unfolding create_job_with_db insert_job find_key has_tenant_key new_job lookup insert
create_job_loses_example =
    create_job_loses encode 9 12 "j2" "r2" "j3" "r3" other_path "f2" 9 12 one_job refl refl refl

create_job_refines_example :
    let (known, answer) =
      promise first_request (new_record encode 5 "j1" first_request "f1" 5) (promised no_tables) in
    let (t, said) =
      create_job_with_db encode no_intake_faults 5 "j1" "r1" first_request "f1" 5 no_tables in
    ((tenant path key : String) → promised t tenant path key ≡ known tenant path key)
    × (said ≡ ok answer)
unfolding find_key has_tenant_key lookup
create_job_refines_example =
    create_job_refines encode 5 "j1" "r1" first_request "f1" 5 no_tables refl refl refl

abbrev address : Ipv4
address = record { a = 10; b = 1; c = 2; d = 3 }

abbrev private_ip : Ip
private_ip = record {
  is_loopback = false;
  is_link_local_unicast = false;
  is_link_local_multicast = false;
  to4 = some address;
}

abbrev hook : Url
hook = record { scheme = "https"; host = "10.1.2.3"; hostname = "10.1.2.3" }

abbrev net : NetLibrary
net = record { parse_url = λ raw. some hook; parse_ip = λ host. some private_ip }

abbrev lib : Libraries String String
lib = record {
  length = λ body. 2;
  unmarshal = λ body. if body == "{}" then some first_request else none;
  encode = encode;
  fingerprint = λ payload. some "f1";
  is_cron = λ schedule. false;
  net = net;
}

abbrev handler : Handler
handler = record { has_pool = true; allow_private_callbacks = false; tables = no_tables; idem = [] }

abbrev draw : Draw
draw = record { first_run_at = 4; accepted_at = 5; job_id = "j1"; run_id = "r1" }

create_job_stores_example :
    let (h', r) = create_job lib no_intake_faults draw (some "{}") handler in
    (j : Job) × (lookup "j1" h'.tables.db.jobs ≡ some j)
    × (lookup "j1" h'.tables.db.jobs_read ≡ some (project j))
    × (r.location ≡ some ("/v1/jobs/" <> "j1"))
    × IsSubmitted lib false draw j
    × (is_some j.next_run_at ≡ true)
    × (is_runnable (or_default 0 j.next_run_at + 60) [] j ≡ true)
unfolding create_job admit validate store_job create_job_with_db insert_job find_key has_tenant_key
    normalised trim_space valid_idempotency_key text_length all_key_chars lookup
create_job_stores_example =
    create_job_stores lib no_intake_faults draw (some "{}") [] 60 handler refl refl refl refl

create_job_unchanged_example :
    (create_job lib no_intake_faults draw (some "[]") handler).0 ≡ handler
unfolding create_job admit
create_job_unchanged_example =
    create_job_unchanged lib no_intake_faults draw (some "[]") handler (λ e. omega arith)
      (λ e. omega arith)

address-IsNetAddress : IsNetAddress private_ip address
address-IsNetAddress = record {
  four = refl;
  bytes = record { a = omega arith; b = omega arith; c = omega arith; d = omega arith };
  loopback = (λ e. ground arith, λ block. ground arith);
  unicast = (λ e. ground arith, λ block. ground arith);
  multicast = (λ e. ground arith, λ block. ground arith);
}

valid_callback_url_iff_example : (valid_callback_url net "https://10.1.2.3" false ≡ true) ↔ (
    (hook.host ≢ "")
    × ((hook.scheme ≡ "http") ⊎ (hook.scheme ≡ "https"))
    × ¬ (IsPrivate address ⊎ IsInBlock (224 * 2 ^ 24) (2 ^ 8) address))
valid_callback_url_iff_example =
    valid_callback_url_iff net "https://10.1.2.3" hook private_ip address refl refl
      (λ e. ground (arith, e, eq_iff "10.1.2.3" "localhost")) address-IsNetAddress
