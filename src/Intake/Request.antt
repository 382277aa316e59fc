-- ===== src/Intake/Request.antt =====
-- The request of `CreateJob` and the checks of its fields. `max_attempts` holds 0 for every value
-- below 1, which the handler treats alike; instants are nanoseconds.
use Prim.Native.Char.{code}
use release_engine.Prelude.{
  ℕ, String, suc, Bool, true, false, ◌&&◌, ◌||◌, Option, none, some, ◌==◌, leb, eqb, ltb,
  if◌then◌else◌, trim_space,
}

-- `createJobRequest`; `Params` is `map[string]any`.
pub record Request (Params : Type 0) : Type 0 where
  pub tenant_id : String
  pub path_key : String
  pub params : Params
  pub idempotency_key : String
  pub callback_url : String
  pub max_attempts : ℕ
  pub first_run_at : Option ℕ
  pub schedule : String

-- `createJobEnvelope`, less `state` and `attempt`, which are "queued" and 0.
pub record Envelope : Type 0 where
  pub job_id : String
  pub tenant_id : String
  pub path_key : String
  pub max_attempts : ℕ
  pub next_run_at : ℕ
  pub accepted_at : ℕ

-- `createJobRecord`
pub record Record : Type 0 where
  pub fingerprint : String
  pub status_code : ℕ
  pub envelope : Envelope

-- [a-zA-Z0-9\-_.]
abbrev pub is_key_char : ℕ → Bool
is_key_char c =
    (leb b'a' c && leb c b'z')
    || (leb b'A' c && leb c b'Z')
    || (leb b'0' c && leb c b'9')
    || eqb c b'-'
    || eqb c b'_'
    || eqb c b'.'

unfoldable pub all_key_chars : String → Bool
all_key_chars String.[] = true
all_key_chars (String.◌∷◌ c s) = is_key_char (code c) && all_key_chars s

-- `len` of an ASCII text; another one fails the pattern whatever its length.
unfoldable pub text_length : String → ℕ
text_length String.[] = 0
text_length (String.◌∷◌ c s) = suc (text_length s)

-- `validIdempotencyKey`
unfoldable pub valid_idempotency_key : String → Bool
valid_idempotency_key key =
    if eqb (text_length key) 0 || ltb 128 (text_length key) then false else all_key_chars key

-- What `createJobFingerprint` marshals.
pub record FingerprintPayload (Params : Type 0) : Type 0 where
  pub path_key : String
  pub params : Params
  pub callback_url : Option String
  pub schedule : Option String
  pub first_run_at : Option ℕ

abbrev pub nonempty : String → Option String
nonempty s = if s == "" then none else some s

module _ {P : Type 0} where
  unfoldable pub fingerprint_payload : Request P → FingerprintPayload P
  fingerprint_payload req = record {
    path_key = req.path_key;
    params = req.params;
    callback_url = nonempty req.callback_url;
    schedule = nonempty req.schedule;
    first_run_at = req.first_run_at;
  }

  -- `nextRunAt`
  unfoldable pub next_run_at : ℕ → Request P → ℕ
  next_run_at now req = elim req.first_run_at [ none ↦ now | some t ↦ t ]

  -- The assignments to `req` on the way through `CreateJob`.
  unfoldable pub normalised : Request P → Request P
  normalised req = record req {
    tenant_id = trim_space req.tenant_id;
    path_key = trim_space req.path_key;
    schedule = trim_space req.schedule;
    max_attempts = if ltb req.max_attempts 1 then 3 else req.max_attempts;
  }

-- `nullableSchedule`
unfoldable pub nullable_schedule : String → Option String
nullable_schedule schedule = nonempty (trim_space schedule)
