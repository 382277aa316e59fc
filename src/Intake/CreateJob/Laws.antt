-- ===== src/Intake/CreateJob/Laws.antt =====
-- What `CreateJob` accepts, what it stores then, and what it leaves alone.
use mathlib.Core.Path.{subst₂}
use release_engine.Prelude.{
  String, ◌≡◌, ◌≢◌, ◌⊎◌, ◌≤◌, ◌==◌, ◌&&◌, ◌||◌, not, inl, inr, Bool, true, false, some, ok, eq_iff,
  arith, Bool-cases, Option-cases,
}
use release_engine.Intake.Request.{Request, normalised, fingerprint_payload, valid_idempotency_key}
use release_engine.Intake.Callback.{valid_callback_url}
use release_engine.Intake.CreateJob.{Libraries, validate}

module _ {B P : Type 0} (lib : Libraries B P) where
  -- What the checks establish.
  pub record IsValid (allow : Bool) (req : Request P) (fp : String) : Type 0 where
    pub tenant : req.tenant_id ≢ ""
    pub path : req.path_key ≢ ""
    pub key : valid_idempotency_key req.idempotency_key ≡ true
    pub callback :
        (req.callback_url ≡ "") ⊎ (valid_callback_url lib.net req.callback_url allow ≡ true)
    pub schedule : (req.schedule ≡ "") ⊎ (lib.is_cron req.schedule ≡ true)
    pub attempts : 1 ≤ req.max_attempts
    pub hashed : lib.fingerprint (fingerprint_payload req) ≡ some fp

  normalised_attempts : (raw : Request P) → 1 ≤ (normalised raw).max_attempts
  unfolding normalised
  normalised_attempts raw = ground arith

  validated :
      (allow : Bool) (req : Request P) (fp : String)
      → (req.tenant_id == "" || req.path_key == "") ≡ false
      → not (valid_idempotency_key req.idempotency_key) ≡ false
      → (not (req.callback_url == "") && not (valid_callback_url lib.net req.callback_url allow))
        ≡ false
      → (not (req.schedule == "") && not (lib.is_cron req.schedule)) ≡ false
      → 1 ≤ req.max_attempts
      → lib.fingerprint (fingerprint_payload req) ≡ some fp
      → IsValid allow req fp
  validated allow req fp a b c d n e = record {
    tenant = ground (arith, a, eq_iff req.tenant_id "");
    path = ground (arith, a, eq_iff req.path_key "");
    key = ground arith;
    callback = ground (arith, c, eq_iff req.callback_url "");
    schedule = ground (arith, d, eq_iff req.schedule "");
    attempts = n;
    hashed = e;
  }

  pub validate-IsValid :
      (allow : Bool) (raw req : Request P) (fp : String)
      → validate lib allow raw ≡ ok (req, fp)
      → IsValid allow req fp
  unfolding validate
  validate-IsValid allow raw req fp h =
      let n = normalised raw in
      elim (Bool-cases (n.tenant_id == "" || n.path_key == "")) [
        | inl a ↦ absurd (let stuck = rw a at h in cc)
        | inr a ↦ elim (Bool-cases (not (valid_idempotency_key n.idempotency_key))) [
          | inl b ↦ absurd (let stuck = rw (a, b) at h in cc)
          | inr b ↦
              elim (Bool-cases (
                not (n.callback_url == "")
                && not (valid_callback_url lib.net n.callback_url allow))) [
                  | inl c ↦ absurd (let stuck = rw (a, b, c) at h in cc)
                  | inr c ↦
                      elim (Bool-cases (not (n.schedule == "") && not (lib.is_cron n.schedule))) [
                        | inl d ↦ absurd (let stuck = rw (a, b, c, d) at h in cc)
                        | inr d ↦ elim (Option-cases (lib.fingerprint (fingerprint_payload n))) [
                          | inl e ↦ absurd (let stuck = rw (a, b, c, d, e, validate) at h in cc)
                          | inr (x, e) ↦
                              let made = rw (a, b, c, d, e, validate) at h in
                              let same : n ≡ req = cc in
                              let same_fp : x ≡ fp = cc in
                              subst₂ (λ r f. IsValid allow r f) same same_fp
                                (validated allow n x a b c d (normalised_attempts raw) e)
                        ]
                      ]
                ]
        ]
      ]
