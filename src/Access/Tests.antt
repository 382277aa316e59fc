-- ===== src/Access/Tests.antt =====
-- Two tenants on a limiter of two tokens that yields one a second, and a token under an issuer's only key.
use mathlib.Core.Path.{subst}
use release_engine.Prelude.Int.{pos}
use release_engine.Access.Keys.{
  KeyLibrary, PublicKey, JwksCache, Issuer, Jwk, get_key, renew, refresh, discover_jwks_uri,
  add_keys, public_key,
}
use release_engine.Access.Auth.{JwtLibrary, AuthContext, AuthClaims, authenticate, check_token}
use release_engine.Access.Auth.Laws.{AllServed, Serves, IsVouched, authenticate-IsVouched}
use release_engine.Prelude.{
  ◌≡◌, ◌==◌, refl, inr, true, none, Option, AllEntries, insert, lookup, if◌then◌else◌, ℕ, String,
  ◌≤◌, ◌+◌, ◌-◌, ◌*◌, some, List, [], ◌∷◌, arith,
}
use release_engine.Access.Limiter.{one_token, new_rate_limiter_store}
use release_engine.Access.Limiter.Bounds.{Call, admitted, admitted_bounded}

abbrev call : String → ℕ → Call
call tenant now = record { tenant = some tenant; opened = now; now = now }

abbrev calls : List Call
calls = call "t1" 5 ∷ call "t2" 6 ∷ call "t1" 7 ∷ call "t1" 8 ∷ []

admitted_bounded_example :
    admitted "t1" (new_rate_limiter_store 2_000_000_000 1) calls * one_token
    ≤ 2_000_000_000 + 1 * (9 - 5)
admitted_bounded_example = admitted_bounded 2_000_000_000 1 5 9 "t1" calls (
  omega arith,
  omega arith,
  (omega arith, omega arith, (omega arith, omega arith, (omega arith, omega arith, omega arith))),
)

abbrev key_library : KeyLibrary
key_library = record { Bytes = String; decode = λ text. some text; is_url = λ uri. true }

abbrev served_key : PublicKey key_library
served_key = record { modulus = "n1"; exponent = "AQAB" }

abbrev claims : AuthClaims
claims = record {
  subject = "ann";
  tenant_id = "t1";
  role = "team-lead";
  brand_ids = [];
  group_ids = [];
  issuer = "https://issuer";
  audience = "release-engine";
  expires_at = pos 9;
  issued_at = pos 1;
}

abbrev jwt : JwtLibrary key_library
jwt = record {
  split = λ header. some ("bearer", "token");
  equal_fold = λ a b. true;
  kid_of = λ token. some "k1";
  verify = λ key token. if key.modulus == "n1" then some claims else none;
}

-- An issuer of one key, and an empty cache.
abbrev issuer : Issuer
issuer = record {
  discovery = some "https://issuer/keys";
  jwks = λ uri. some (record { kid = "k1"; kty = "RSA"; n = "n1"; e = "AQAB" } ∷ []);
}

abbrev no_keys : JwksCache key_library
no_keys = record { keys = []; refresh_after = 0 }

abbrev Genuine : String → PublicKey key_library → Type 0
Genuine kid key = key ≡ served_key

abbrev context : AuthContext
context = record { claims = claims; tenant_id = some "t1" }

issuer-Serves : Serves key_library Genuine issuer
unfolding public_key
issuer-Serves uri jwks e =
    subst (λ ks. AllServed key_library Genuine ks) (some_injective e)
      (inr (served_key, refl, refl), tt)
  where
    some_injective : {x y : List Jwk} → ◌≡◌ {A = Option (List Jwk)} (some x) (some y) → x ≡ y
    some_injective h = cc

authenticate-IsVouched_example :
    let (c', passes) = authenticate key_library jwt issuer 5 6 "bearer token" no_keys in
    (scheme token : String) × (jwt.split "bearer token" ≡ some (scheme, token))
    × (jwt.equal_fold scheme "Bearer" ≡ true)
    × AllEntries Genuine c'.keys
    × IsVouched key_library Genuine jwt issuer 5 6 c' token context
unfolding authenticate check_token get_key renew refresh discover_jwks_uri add_keys public_key
    insert lookup
authenticate-IsVouched_example =
    authenticate-IsVouched key_library Genuine jwt issuer 5 6 "bearer token" no_keys context
      issuer-Serves tt refl
