-- ===== src/Access/Auth.antt =====
-- `authMiddleware.Process` (internal/transport/http/middleware.go). Parsing and verifying tokens is the jwt
-- library's.
pub mod Laws
use release_engine.Prelude.{
  ℕ, String, Bool, true, false, not, ◌&&◌, Option, none, some, List, ◌==◌, if◌then◌else◌, Result,
  ok, err,
}
use release_engine.Prelude.Int.{ℤ}
use release_engine.Access.Keys.{KeyLibrary, KeyError, PublicKey, JwksCache, Issuer, get_key}

pub record AuthClaims : Type 0 where
  pub subject : String
  pub tenant_id : String
  pub role : String
  pub brand_ids : List String
  pub group_ids : List String
  pub issuer : String
  pub audience : String
  pub expires_at : ℤ
  pub issued_at : ℤ

-- `strings.SplitN(header, " ", 2)` where it gives two parts; `strings.EqualFold`; the `kid` of the header of
-- a token that can be parsed, where it is a text; the claims, read into `AuthClaims`, of a token that
-- `jwt.ParseWithClaims` accepts with an RSA method, the key, the issuer and the audience.
pub record JwtLibrary (keys : KeyLibrary) : Type 0 where
  pub split : String → Option (String × String)
  pub equal_fold : String → String → Bool
  pub kid_of : String → Option String
  pub verify : PublicKey keys → String → Option AuthClaims

-- The codes of the two answers 401.
pub data AuthError : Type 0 where
  auth_missing auth_invalid : AuthError

-- What the next handler finds in the context.
pub record AuthContext : Type 0 where
  pub claims : AuthClaims
  pub tenant_id : Option String

module _ (keys : KeyLibrary) (lib : JwtLibrary keys) where
  -- From the token on.
  unfoldable pub check_token :
      Issuer
      → (now ended : ℕ) → String
      → JwksCache keys
      → JwksCache keys × Result AuthError AuthContext
  check_token issuer now ended token c = elim (lib.kid_of token) [
    | none ↦ (c, err auth_invalid)
    | some kid ↦
        let (c', found) = get_key keys issuer now ended kid c in
        (
          c',
          elim found [
            | err e ↦ err auth_invalid
            | ok key ↦ elim (lib.verify key token) [
              | none ↦ err auth_invalid
              | some claims ↦ ok (record {
                claims = claims;
                tenant_id = if claims.tenant_id == "" then none else some claims.tenant_id;
              })
            ]
          ],
        )
  ]

  -- `Process`
  unfoldable pub authenticate :
      Issuer
      → (now ended : ℕ) → (header : String) → JwksCache keys
      → JwksCache keys × Result AuthError AuthContext
  authenticate issuer now ended header c =
      if header == "" then (c, err auth_missing) else elim (lib.split header) [
        | none ↦ (c, err auth_missing)
        | some (scheme, token) ↦
            if lib.equal_fold scheme "Bearer"
            then check_token issuer now ended token c
            else (c, err auth_missing)
      ]
