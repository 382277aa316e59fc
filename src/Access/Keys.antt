-- ===== src/Access/Keys.antt =====
-- `JWKSCache` (internal/transport/http/middleware.go). What the issuer answers to the two requests of a
-- refresh is given: `none` stands for a failed request, a status other than 200 and a body that is not JSON.
use release_engine.Prelude.{
  ℕ, String, ◌+◌, Bool, not, Option, none, some, List, [], ◌∷◌, ◌==◌, ltb, if◌then◌else◌, Dict,
  lookup, insert, Result, ok, err,
}

-- `JWK`, by the fields that are read.
pub record Jwk : Type 0 where
  pub kid : String
  pub kty : String
  pub n : String
  pub e : String

-- The `jwks_uri` of the discovery document, and the `keys` at an address.
pub record Issuer : Type 0 where
  pub discovery : Option String
  pub jwks : String → Option (List Jwk)

-- `base64.RawURLEncoding.DecodeString` of a modulus or exponent, and `url.Parse` without an error.
pub record KeyLibrary : Type 1 where
  pub Bytes : Type 0
  pub decode : String → Option Bytes
  pub is_url : String → Bool

pub data KeyError : Type 0 where
  refresh_failed key_not_found : KeyError

abbrev pub five_minutes : ℕ
five_minutes = 300_000_000_000

module _ (lib : KeyLibrary) where
  -- `rsa.PublicKey`, by the bytes of N and E.
  pub record PublicKey : Type 0 where
    pub modulus : lib.Bytes
    pub exponent : lib.Bytes

  pub record JwksCache : Type 0 where
    pub keys : Dict PublicKey
    pub refresh_after : ℕ

  -- `discoverJWKSURI`
  unfoldable pub discover_jwks_uri : Issuer → Option String
  discover_jwks_uri issuer = elim issuer.discovery [
    | none ↦ none
    | some uri ↦ if uri == "" then none else if lib.is_url uri then some uri else none
  ]

  -- The key of a JWK, where the loop of `refresh` does not skip it.
  unfoldable pub public_key : Jwk → Option PublicKey
  public_key jwk = if not (jwk.kty == "RSA") then none else elim (lib.decode jwk.n) [
    | none ↦ none
    | some n ↦ elim (lib.decode jwk.e) [
      | none ↦ none
      | some e ↦ some (record { modulus = n; exponent = e })
    ]
  ]

  -- `newKeys`, and their copies into the cache: a later key takes the place of an earlier one.
  unfoldable pub add_keys : List Jwk → Dict PublicKey → Dict PublicKey
  add_keys [] keys = keys
  add_keys (jwk ∷ jwks) keys = elim (public_key jwk) [
    | none ↦ add_keys jwks keys
    | some key ↦ add_keys jwks (insert jwk.kid key keys)
  ]

  -- `refresh`, with the instant of its end; `none` is an error, which leaves the cache alone.
  unfoldable pub refresh : Issuer → ℕ → JwksCache → Option JwksCache
  refresh issuer ended c = elim (discover_jwks_uri issuer) [
    | none ↦ none
    | some uri ↦ elim (issuer.jwks uri) [
      | none ↦ none
      | some jwks ↦
          some (record { keys = add_keys jwks c.keys; refresh_after = ended + five_minutes })
    ]
  ]

  -- The rest of `GetKey`, once a refresh is due.
  unfoldable pub renew :
      Issuer → (ended : ℕ) → String → JwksCache → JwksCache × Result KeyError PublicKey
  renew issuer ended kid c = elim (refresh issuer ended c) [
    | none ↦ (c, elim (lookup kid c.keys) [ some key ↦ ok key | none ↦ err refresh_failed ])
    | some c' ↦ (c', elim (lookup kid c'.keys) [ some key ↦ ok key | none ↦ err key_not_found ])
  ]

  -- `GetKey`
  unfoldable pub get_key :
      Issuer → (now ended : ℕ) → String → JwksCache → JwksCache × Result KeyError PublicKey
  get_key issuer now ended kid c = elim (lookup kid c.keys) [
    | some key ↦ if ltb c.refresh_after now then renew issuer ended kid c else (c, ok key)
    | none ↦ renew issuer ended kid c
  ]
