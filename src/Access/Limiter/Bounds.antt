-- ===== src/Access/Limiter/Bounds.antt =====
-- What the limiter admits of one tenant's requests over time.
use mathlib.Core.Path.{subst₂, ◌∙◌}
use release_engine.Prelude.{
  ℕ, String, ◌≡◌, ◌≤◌, ◌+◌, ◌-◌, ◌*◌, ◌==◌, inl, inr, refl, Option, some, List, [], ◌∷◌, arith,
  eq_iff, Bool-cases, lookup, if◌then◌else◌,
}
use release_engine.Access.Limiter.{
  RateLimiterStore, one_token, new_rate_limiter_store, consume, process, tenant_or_default, passed,
  limited,
}
use release_engine.Access.Limiter.Bucket.{
  opened_bucket, cost, drawable, IsSound, elapsed, draw_own, draw_foreign, consume-IsSound,
  IsSound-later,
}
use release_engine.Access.Limiter.Stores.{lookup-process, process_verdict, process_store}

-- A request of a tenant, with the two instants at which `Process` reads the clock.
pub record Call : Type 0 where
  pub tenant : Option String
  pub opened : ℕ
  pub now : ℕ

-- The calls follow one another between the two instants.
abbrev pub InOrder : ℕ → ℕ → List Call → Type 0
InOrder from until [] = from ≤ until
InOrder from until (c ∷ cs) = (from ≤ c.opened) × (c.opened ≤ c.now) × InOrder c.now until cs

-- How many of the calls are a tenant's and pass.
unfoldable pub admitted : String → RateLimiterStore → List Call → ℕ
admitted tenant st [] = 0
admitted tenant st (c ∷ cs) =
    let (st', verdict) = process c.opened c.now c.tenant st in
    let rest = admitted tenant st' cs in
    if tenant_or_default c.tenant == tenant
    then elim verdict [ passed ↦ rest + 1 | limited n ↦ rest ]
    else rest

InOrder-ends : (from until : ℕ) (cs : List Call) → InOrder from until cs → from ≤ until
InOrder-ends from until [] h = h
InOrder-ends from until (c ∷ cs) (h, k, rest) = ground (arith, InOrder-ends c.now until cs rest)

-- One call's part of the count.
counts :
    (tenant : String) (st : RateLimiterStore) (c : Call) (cs : List Call)
    → let o = lookup (tenant_or_default c.tenant) st.buckets in
      let taken = (consume c.now (opened_bucket st.capacity st.refill c.opened o)).1 in
      let rest = admitted tenant (process c.opened c.now c.tenant st).0 cs in
      admitted tenant st (c ∷ cs) * one_token ≡ (
        if tenant_or_default c.tenant == tenant
        then cost taken + rest * one_token
        else rest * one_token)
unfolding admitted
counts tenant st c cs = rw process_verdict (ground arith)

admitted_none : (tenant : String) (st : RateLimiterStore) → admitted tenant st [] * one_token ≡ 0
unfolding admitted
admitted_none tenant st = refl

admitted_lem :
    (capacity refill from until : ℕ) (tenant : String) (st : RateLimiterStore) (cs : List Call)
    → st.capacity ≡ capacity
    → st.refill ≡ refill
    → InOrder from until cs
    → IsSound capacity refill from (lookup tenant st.buckets)
    → admitted tenant st cs * one_token
      ≤ drawable capacity refill from (lookup tenant st.buckets) + refill * (until - from)
admitted_lem capacity refill from until tenant st [] p q order s =
    omega (arith, admitted_none tenant st)
admitted_lem capacity refill from until tenant st (c ∷ cs) p q (h, k, rest) s =
    let o = lookup tenant st.buckets in
    let st' = (process c.opened c.now c.tenant st).0 in
    let (p', q') = process_store c.opened c.now c.tenant st in
    let later : from ≤ c.now = omega arith in
    let split = elapsed refill from c.now until later (InOrder-ends c.now until cs rest) in
    let view = lookup-process c.opened c.now c.tenant tenant st in
    let count = counts tenant st c cs in
    elim (Bool-cases (tenant_or_default c.tenant == tenant)) [
      | inl e ↦
          let same = (eq_iff (tenant_or_default c.tenant) tenant).0 e in
          let b = opened_bucket capacity refill c.opened o in
          let left : lookup tenant st'.buckets ≡ some (consume c.now b).0 =
            subst₂
              (λ cap ref.
                lookup tenant st'.buckets
                ≡ some (consume c.now (opened_bucket cap ref c.opened o)).0)
              p q (rw (e, same) at view) in
          let sum : admitted tenant st (c ∷ cs) * one_token
              ≡ cost (consume c.now b).1 + admitted tenant st' cs * one_token =
            subst₂
              (λ cap ref.
                admitted tenant st (c ∷ cs) * one_token
                ≡ cost (consume c.now (opened_bucket cap ref c.opened o)).1
                  + admitted tenant st' cs * one_token)
              p q (rw (e, same) at count) in
          let sound = consume-IsSound capacity refill from c.opened c.now o s in
          let ih =
            admitted_lem capacity refill c.now until tenant st' cs (p' ∙ p) (q' ∙ q) rest
              (rw left sound) in
          let rest_bound : admitted tenant st' cs * one_token
              ≤ drawable capacity refill c.now (some (consume c.now b).0)
                + refill * (until - c.now) =
            rw left at ih in
          omega
            (arith, sum, rest_bound, draw_own capacity refill from c.opened c.now o h k s, split)
      | inr e ↦
          let left : lookup tenant st'.buckets ≡ o = rw e at view in
          let sum : admitted tenant st (c ∷ cs) * one_token ≡ admitted tenant st' cs * one_token =
            rw e at count in
          let sound = IsSound-later capacity refill from c.now o later s in
          let ih =
            admitted_lem capacity refill c.now until tenant st' cs (p' ∙ p) (q' ∙ q) rest
              (rw left sound) in
          let rest_bound : admitted tenant st' cs * one_token
              ≤ drawable capacity refill c.now o + refill * (until - c.now) =
            rw left at ih in
          omega (arith, sum, rest_bound, draw_foreign capacity refill from c.now o later s, split)
    ]

-- However the requests of all tenants follow one another from a new store on, the requests of one
-- tenant that pass number at most the capacity and what the refill yields in the time between.
pub admitted_bounded :
    (capacity refill from until : ℕ) (tenant : String) (cs : List Call)
    → InOrder from until cs
    → admitted tenant (new_rate_limiter_store capacity refill) cs * one_token
      ≤ capacity + refill * (until - from)
unfolding lookup
admitted_bounded capacity refill from until tenant cs order =
    admitted_lem capacity refill from until tenant (new_rate_limiter_store capacity refill) cs refl
      refl order tt
