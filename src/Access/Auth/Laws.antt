-- ===== src/Access/Auth/Laws.antt =====
-- A request passes under a key that the issuer has served.
use mathlib.Core.Path.{subst, ap, ◌∙◌}
use release_engine.Prelude.{
  ◌+◌, ℕ, String, ◌≡◌, ◌⊎◌, refl, inl, inr, true, none, some, List, [], ◌∷◌, ◌==◌, arith,
  Bool-cases, Option-cases, Dict, lookup, AllEntries, AllEntries-insert, AllEntries-lookup, Result,
  ok, err, Result-cases, ltb, if◌then◌else◌,
}
use release_engine.Access.Keys.{
  KeyLibrary, PublicKey, JwksCache, Issuer, Jwk, KeyError, refresh_failed, key_not_found,
  five_minutes, renew, get_key, refresh, add_keys, public_key, discover_jwks_uri,
}
use release_engine.Access.Auth.{JwtLibrary, AuthContext, check_token, authenticate}

held :
    {K : Type 0} (kid : String) (m : Dict K) (key : K) (e : KeyError)
    → ◌≡◌ {A = Result KeyError K} (elim (lookup kid m) [ some k ↦ ok k | none ↦ err e ]) (ok key)
    → lookup kid m ≡ some key
held kid m key e h = ground (arith, h)

module _ (keys : KeyLibrary) (P : String → PublicKey keys → Type 0) where
  -- The keys of a document have the property.
  abbrev pub AllServed : List Jwk → Type 0
  AllServed [] = Unit
  AllServed (jwk ∷ jwks) =
      ((public_key keys jwk ≡ none)
        ⊎ ((key : PublicKey keys) × (public_key keys jwk ≡ some key) × P jwk.kid key))
      × AllServed jwks

  add_keys-AllEntries :
      (jwks : List Jwk) (m : Dict (PublicKey keys))
      → AllServed jwks
      → AllEntries P m
      → AllEntries P (add_keys keys jwks m)
  unfolding add_keys
  add_keys-AllEntries [] m s h = h
  add_keys-AllEntries (jwk ∷ jwks) m (inl e, s) h =
      rw (e, add_keys) (add_keys-AllEntries jwks m s h)
  add_keys-AllEntries (jwk ∷ jwks) m (inr (key, e, p), s) h =
      rw (e, add_keys) (add_keys-AllEntries jwks _ s (AllEntries-insert P jwk.kid key m h p))

  -- Every document of the issuer has such keys only.
  abbrev pub Serves : Issuer → Type 0
  Serves issuer = (uri : String) (jwks : List Jwk) → issuer.jwks uri ≡ some jwks → AllServed jwks

  refresh-AllEntries :
      (issuer : Issuer) (ended : ℕ) (c c' : JwksCache keys)
      → Serves issuer
      → AllEntries P c.keys
      → refresh keys issuer ended c ≡ some c'
      → AllEntries P c'.keys
  unfolding refresh
  refresh-AllEntries issuer ended c c' s h e = elim (Option-cases (discover_jwks_uri keys issuer)) [
    | inl a ↦ absurd (let stuck = rw (a, refresh) at e in cc)
    | inr (uri, a) ↦ elim (Option-cases (issuer.jwks uri)) [
      | inl b ↦ absurd (let stuck = rw (a, b, refresh) at e in cc)
      | inr (jwks, b) ↦
          let made = rw (a, b, refresh) at e in
          let new : JwksCache keys = record {
            keys = add_keys keys jwks c.keys;
            refresh_after = ended + five_minutes;
          } in
          let same : new ≡ c' = cc in
          subst (λ x. AllEntries P x.keys) same (add_keys-AllEntries jwks c.keys (s uri jwks b) h)
    ]
  ]

  -- A key that is answered is one that the cache then holds.
  module _ (issuer : Issuer) (now ended : ℕ) (kid : String) (c : JwksCache keys) where
    renew_holds :
        (key : PublicKey keys)
        → Serves issuer
        → AllEntries P c.keys
        → (renew keys issuer ended kid c).1 ≡ ok key
        → AllEntries P (renew keys issuer ended kid c).0.keys
          × (lookup kid (renew keys issuer ended kid c).0.keys ≡ some key)
    unfolding renew
    renew_holds key s h e = elim (Option-cases (refresh keys issuer ended c)) [
      | inl a ↦ rw (a, renew) (h, held kid c.keys key refresh_failed (rw (a, renew) at e))
      | inr (c', a) ↦
          rw (a, renew)
            (
              refresh-AllEntries issuer ended c c' s h a,
              held kid c'.keys key key_not_found (rw (a, renew) at e),
            )
    ]

    get_key_holds :
        (key : PublicKey keys)
        → Serves issuer
        → AllEntries P c.keys
        → (get_key keys issuer now ended kid c).1 ≡ ok key
        → AllEntries P (get_key keys issuer now ended kid c).0.keys
          × (lookup kid (get_key keys issuer now ended kid c).0.keys ≡ some key)
    unfolding get_key
    get_key_holds key s h e = elim (Option-cases (lookup kid c.keys)) [
      | inl a ↦ rw (a, get_key) (renew_holds key s h (rw (a, get_key) at e))
      | inr (old, a) ↦ elim (Bool-cases (ltb c.refresh_after now)) [
        | inl b ↦ rw (a, b, get_key) (renew_holds key s h (rw (a, b, get_key) at e))
        | inr b ↦
            let answered = rw (a, b, get_key) at e in
            let same : old ≡ key = cc in rw (a, b, get_key) (h, a ∙ ap some same)
      ]
    ]

  module _ (lib : JwtLibrary keys) (issuer : Issuer) (now ended : ℕ) where
    -- Why a request passes.
    pub record IsVouched (c' : JwksCache keys) (token : String) (ctx : AuthContext) : Type 0 where
      pub kid : String
      pub key : PublicKey keys
      pub named : lib.kid_of token ≡ some kid
      pub served : P kid key
      pub held : lookup kid c'.keys ≡ some key
      pub verified : lib.verify key token ≡ some ctx.claims
      pub tenant :
          ctx.tenant_id ≡ (if ctx.claims.tenant_id == "" then none else some ctx.claims.tenant_id)

    check_token-IsVouched :
        (token : String) (c : JwksCache keys) (ctx : AuthContext)
        → Serves issuer
        → AllEntries P c.keys
        → (check_token keys lib issuer now ended token c).1 ≡ ok ctx
        → AllEntries P (check_token keys lib issuer now ended token c).0.keys
          × IsVouched (check_token keys lib issuer now ended token c).0 token ctx
    unfolding check_token
    check_token-IsVouched token c ctx s h e = elim (Option-cases (lib.kid_of token)) [
      | inl a ↦ absurd (let stuck = rw (a, check_token) at e in cc)
      | inr (kid, a) ↦
          let call = get_key keys issuer now ended kid c in
          elim (Result-cases call.1) [
            | inr (f, b) ↦ absurd (let stuck = rw (a, b, check_token) at e in cc)
            | inl (key, b) ↦ elim (Option-cases (lib.verify key token)) [
              | inl d ↦ absurd (let stuck = rw (a, b, d, check_token) at e in cc)
              | inr (claims, d) ↦
                  let answered = rw (a, b, d, check_token) at e in
                  let made : AuthContext = record {
                    claims = claims;
                    tenant_id = if claims.tenant_id == "" then none else some claims.tenant_id;
                  } in
                  let same : made ≡ ctx = cc in
                  let (all, found) = get_key_holds issuer now ended kid c key s h b in
                  let left : (check_token keys lib issuer now ended token c).0 ≡ call.0 =
                    rw (a, check_token) refl in
                  rw left (
                    all,
                    record {
                      kid = kid;
                      key = key;
                      named = a;
                      served = AllEntries-lookup P kid key call.0.keys all found;
                      held = found;
                      verified = d ∙ ap (λ x. some x.claims) same;
                      tenant =
                          subst
                            (λ x. x.tenant_id ≡ (
                              if x.claims.tenant_id == "" then none else some x.claims.tenant_id))
                            same refl;
                    },
                  )
            ]
          ]
    ]

    -- Whatever holds of every key that the issuer serves, and of the keys in the cache, holds of the
    -- key under which a request passes, which the token names and which verifies it; it holds of the
    -- cache again, and the tenant that is passed on is the one of the verified claims.
    pub authenticate-IsVouched :
        (header : String) (c : JwksCache keys) (ctx : AuthContext)
        → Serves issuer
        → AllEntries P c.keys
        → (authenticate keys lib issuer now ended header c).1 ≡ ok ctx
        → (scheme token : String) × (lib.split header ≡ some (scheme, token))
          × (lib.equal_fold scheme "Bearer" ≡ true)
          × AllEntries P (authenticate keys lib issuer now ended header c).0.keys
          × IsVouched (authenticate keys lib issuer now ended header c).0 token ctx
    unfolding authenticate
    authenticate-IsVouched header c ctx s h e = elim (Bool-cases (header == "")) [
      | inl a ↦ absurd (let stuck = rw a at e in cc)
      | inr a ↦ elim (Option-cases (lib.split header)) [
        | inl b ↦ absurd (let stuck = rw (a, b, authenticate) at e in cc)
        | inr ((scheme, token), b) ↦ elim (Bool-cases (lib.equal_fold scheme "Bearer")) [
          | inr d ↦ absurd (let stuck = rw (a, b, d, authenticate) at e in cc)
          | inl d ↦
              let (all, vouched) =
                check_token-IsVouched token c ctx s h (rw (a, b, d, authenticate) at e) in
              let call : authenticate keys lib issuer now ended header c
                  ≡ check_token keys lib issuer now ended token c =
                rw (a, b, d, authenticate) refl in
              (scheme, token, b, d, rw call all, rw call vouched)
        ]
      ]
    ]
