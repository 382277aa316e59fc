-- ===== src/Access/Limiter/Stores.antt =====
-- A call of `Process` as a consumption from the caller's bucket, which leaves the other buckets alone.
use release_engine.Prelude.{
  ℕ, String, ◌≡◌, ◌≢◌, ◌==◌, inl, inr, refl, Option, some, arith, eq_iff, Bool-cases, Option-cases,
  lookup, lookup-insert, if◌then◌else◌,
}
use release_engine.Access.Limiter.{
  retry_after, RateLimiterStore, get_bucket, consume, process, tenant_or_default, passed, limited,
}
use release_engine.Access.Limiter.Bucket.{opened_bucket}

get_bucket_lem :
    (opened : ℕ) (tenant : String) (st : RateLimiterStore)
    → (get_bucket opened tenant st).1
      ≡ opened_bucket st.capacity st.refill opened (lookup tenant st.buckets)
unfolding get_bucket
get_bucket_lem opened tenant st = elim (Option-cases (lookup tenant st.buckets)) [
  | inl e ↦ rw (e, get_bucket) refl
  | inr (b, e) ↦ rw (e, get_bucket) refl
]

-- `GetBucket` changes no other tenant's bucket, and neither figure of the store.
get_bucket_keeps :
    (opened : ℕ) (caller tenant : String) (st : RateLimiterStore)
    → caller ≢ tenant
    → lookup tenant (get_bucket opened caller st).0.buckets ≡ lookup tenant st.buckets
unfolding get_bucket
get_bucket_keeps opened caller tenant st h = elim (Option-cases (lookup caller st.buckets)) [
  | inl e ↦ rw (e, get_bucket, lookup-insert) (ground (arith, h, eq_iff caller tenant))
  | inr (b, e) ↦ rw (e, get_bucket) refl
]

get_bucket_store :
    (opened : ℕ) (tenant : String) (st : RateLimiterStore)
    → ((get_bucket opened tenant st).0.capacity ≡ st.capacity)
      × ((get_bucket opened tenant st).0.refill ≡ st.refill)
unfolding get_bucket
get_bucket_store opened tenant st = ground arith

-- What a call leaves of a tenant's bucket.
pub lookup-process :
    (opened now : ℕ) (caller : Option String) (tenant : String) (st : RateLimiterStore)
    → let b =
        opened_bucket st.capacity st.refill opened (lookup (tenant_or_default caller) st.buckets) in
      lookup tenant (process opened now caller st).0.buckets ≡ (
        if tenant_or_default caller == tenant
        then some (consume now b).0
        else lookup tenant st.buckets)
unfolding process
lookup-process opened now caller tenant st =
    elim (Bool-cases (tenant_or_default caller == tenant)) [
      | inl e ↦ rw (get_bucket_lem, lookup-insert, e) refl
      | inr e ↦
          rw (lookup-insert, e)
            (get_bucket_keeps opened (tenant_or_default caller) tenant st
              (ground (arith, e, eq_iff (tenant_or_default caller) tenant)))
    ]

pub process_verdict :
    (opened now : ℕ) (caller : Option String) (st : RateLimiterStore)
    → let (b, taken) = consume now (
        opened_bucket st.capacity st.refill opened
          (lookup (tenant_or_default caller) st.buckets)) in
      (process opened now caller st).1 ≡ (if taken then passed else limited (retry_after b))
unfolding process
process_verdict opened now caller st = rw get_bucket_lem refl

pub process_store :
    (opened now : ℕ) (caller : Option String) (st : RateLimiterStore)
    → ((process opened now caller st).0.capacity ≡ st.capacity)
      × ((process opened now caller st).0.refill ≡ st.refill)
unfolding process
process_store opened now caller st = get_bucket_store opened (tenant_or_default caller) st
