-- ===== src/Intake/CreateJob.antt =====
-- `CreateJob` and `handleInMemory` (internal/transport/http/job_handler.go). A call reads the clock for
-- the first run and for the acceptance, and draws the two uuids.
pub mod Laws
pub mod Stores
pub mod Refusals
use release_engine.Prelude.{
  ℕ, String, Bool, true, false, not, ◌&&◌, ◌||◌, Option, none, some, ◌==◌, ◌<>◌, ltb, if◌then◌else◌,
  Dict, lookup, insert, Result, ok, err,
}
use release_engine.Intake.Request.{
  Request, Envelope, Record, FingerprintPayload, valid_idempotency_key, fingerprint_payload,
  next_run_at, normalised,
}
use release_engine.Intake.Callback.{NetLibrary, valid_callback_url}
use release_engine.Intake.Store.{
  Tables, IntakeFaults, Intake, created, replayed, conflicted, envelope_of, new_record, existing,
  create_job_with_db,
}

-- `json.Unmarshal` into the request, `json.Marshal` of the parameters, the hash of the marshalled payload
-- (`none` is an error), `cronexpr.Parse` without an error, package net, and `len` of a body.
pub record Libraries (Body Params : Type 0) : Type 0 where
  pub length : Body → ℕ
  pub unmarshal : Body → Option (Request Params)
  pub encode : Params → String
  pub fingerprint : FingerprintPayload Params → Option String
  pub is_cron : String → Bool
  pub net : NetLibrary

-- `JobHandler`; a nil pool leaves the tables alone.
pub record Handler : Type 0 where
  pub has_pool : Bool
  pub allow_private_callbacks : Bool
  pub tables : Tables
  pub idem : Dict Record

-- What a call draws: the instants of its first and its second reading of the clock, and the uuids.
pub record Draw : Type 0 where
  pub first_run_at : ℕ
  pub accepted_at : ℕ
  pub job_id : String
  pub run_id : String

pub data Body : Type 0 where
  failure : (code : String) → Body
  accepted : (envelope : Envelope) → Body
  conflict : (canonical : Envelope) → Body

-- The status, the headers `Idempotency-Key`, `Idempotency-Replayed` and `Location`, and the body.
pub record Response : Type 0 where
  pub status : ℕ
  pub idempotency_key : Option String
  pub replayed : Option Bool
  pub location : Option String
  pub body : Body

pub record Failure : Type 0 where
  pub status : ℕ
  pub code : String

abbrev pub refusal_of : ℕ → String → Failure
refusal_of status code = record { status = status; code = code }

abbrev pub failed_response : Failure → Response
failed_response f = record {
  status = f.status;
  idempotency_key = none;
  replayed = none;
  location = none;
  body = failure f.code;
}

abbrev pub max_create_job_body_bytes : ℕ
max_create_job_body_bytes = 262_144

-- `handleInMemory`
unfoldable pub handle_in_memory : String → String → Envelope → Dict Record → Dict Record × Intake
handle_in_memory key fingerprint env idem = elim (lookup key idem) [
  | some rec ↦ (idem, if rec.fingerprint == fingerprint then replayed rec else conflicted rec)
  | none ↦
      let rec : Record = record { fingerprint = fingerprint; status_code = 202; envelope = env } in
      (insert key rec idem, created rec)
]

-- The headers and the body of the answer.
abbrev pub answer : String → Intake → Response
answer key (created rec) = record {
  status = rec.status_code;
  idempotency_key = some key;
  replayed = some false;
  location = some ("/v1/jobs/" <> rec.envelope.job_id);
  body = accepted rec.envelope;
}
answer key (replayed rec) = record {
  status = rec.status_code;
  idempotency_key = some key;
  replayed = some true;
  location = some ("/v1/jobs/" <> rec.envelope.job_id);
  body = accepted rec.envelope;
}
answer key (conflicted rec) = record {
  status = 409;
  idempotency_key = some key;
  replayed = some false;
  location = some ("/v1/jobs/" <> rec.envelope.job_id);
  body = conflict rec.envelope;
}

module _ {B P : Type 0} (lib : Libraries B P) where
  -- The checks on the fields, up to the fingerprint.
  unfoldable pub validate : Bool → Request P → Result Failure (Request P × String)
  validate allow raw =
      let req = normalised raw in
      if req.tenant_id == "" || req.path_key == ""
      then err (refusal_of 400 "INVALID_REQUEST")
      else if not (valid_idempotency_key req.idempotency_key)
      then err (refusal_of 400 "ERR_INVALID_IDEMPOTENCY_KEY")
      else if not (req.callback_url == "")
          && not (valid_callback_url lib.net req.callback_url allow)
      then err (refusal_of 400 "ERR_INVALID_CALLBACK_URL")
      else if not (req.schedule == "") && not (lib.is_cron req.schedule)
      then err (refusal_of 400 "ERR_INVALID_SCHEDULE")
      else elim (lib.fingerprint (fingerprint_payload req)) [
        | none ↦ err (refusal_of 400 "INVALID_REQUEST")
        | some fp ↦ ok (req, fp)
      ]

  -- From the body, `none` where it cannot be read, to the fingerprint.
  unfoldable pub admit : Bool → Option B → Result Failure (Request P × String)
  admit allow none = err (refusal_of 400 "INVALID_REQUEST")
  admit allow (some body) =
      if ltb max_create_job_body_bytes (lib.length body)
      then err (refusal_of 413 "ERR_PAYLOAD_TOO_LARGE")
      else elim (lib.unmarshal body) [
        | none ↦ err (refusal_of 400 "INVALID_REQUEST")
        | some raw ↦ validate allow raw
      ]

  abbrev pub idem_key : Request P → String
  idem_key req = req.tenant_id <> "|" <> req.path_key <> "|" <> req.idempotency_key

  -- The call of the store.
  unfoldable pub store_job : IntakeFaults → Draw → Request P → String → Handler → Handler × Response
  store_job faults draw req fp h =
      let next = next_run_at draw.first_run_at req in
      if h.has_pool
      then (let (t, done) =
            create_job_with_db lib.encode faults draw.accepted_at draw.job_id draw.run_id req fp
              next h.tables in
          (
            record h { tables = t },
            elim done [
              | err e ↦ failed_response (refusal_of 500 "INTERNAL_ERROR")
              | ok intake ↦ answer req.idempotency_key intake
            ],
          ))
      else (let (idem, intake) =
            handle_in_memory (idem_key req) fp
              (envelope_of lib.encode draw.accepted_at draw.job_id req next) h.idem in
          (record h { idem = idem }, answer req.idempotency_key intake))

  -- `CreateJob`
  unfoldable pub create_job : IntakeFaults → Draw → Option B → Handler → Handler × Response
  create_job faults draw body h = elim (admit h.allow_private_callbacks body) [
    | err f ↦ (h, failed_response f)
    | ok (req, fp) ↦ store_job faults draw req fp h
  ]
