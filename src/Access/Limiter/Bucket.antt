-- ===== src/Access/Limiter/Bucket.antt =====
-- What one consumption takes from a bucket, against what the bucket may yield.
use mathlib.Core.Path.{ap, subst, ◌∙◌}
use release_engine.Prelude.{
  ℕ, ◌≡◌, ◌≤◌, ◌+◌, ◌-◌, ◌*◌, Bool, Option, none, some, arith, if◌then◌else◌,
}
use release_engine.Access.Limiter.{TokenBucket, one_token, refilled, consume}

abbrev pub cost : Bool → ℕ
cost taken = if taken then one_token else 0

consume_bound :
    (now : ℕ) (b : TokenBucket)
    → cost (consume now b).1 + (consume now b).0.tokens
      ≤ b.tokens + b.refill * (now - b.last_refill)
unfolding consume refilled
consume_bound now b = ground arith

consume_cap : (now : ℕ) (b : TokenBucket) → (consume now b).0.tokens ≤ b.capacity
unfolding consume refilled
consume_cap now b = ground arith

mul_sum : (r x y : ℕ) → r * x + r * y ≡ r * (x + y)
mul_sum r x y = omega arith

pub elapsed : (r a b c : ℕ) → a ≤ b → b ≤ c → r * (b - a) + r * (c - b) ≡ r * (c - a)
elapsed r a b c h k =
    let whole : (b - a) + (c - b) ≡ c - a = omega arith in
    mul_sum r (b - a) (c - b) ∙ ap (λ x. r * x) whole

-- What a tenant with this bucket may still draw at `from`.
abbrev pub drawable : (capacity refill from : ℕ) → Option TokenBucket → ℕ
drawable capacity refill from none = capacity
drawable capacity refill from (some b) = b.tokens + refill * (from - b.last_refill)

abbrev pub IsSound : (capacity refill from : ℕ) → Option TokenBucket → Type 0
IsSound capacity refill from none = Unit
IsSound capacity refill from (some b) =
    (b.capacity ≡ capacity) × (b.refill ≡ refill) × (b.last_refill ≤ from)

-- The bucket of `GetBucket`.
abbrev pub opened_bucket : (capacity refill opened : ℕ) → Option TokenBucket → TokenBucket
opened_bucket capacity refill opened none = record {
  tokens = capacity;
  capacity = capacity;
  refill = refill;
  last_refill = opened;
}
opened_bucket capacity refill opened (some b) = b

consume_last : (now : ℕ) (b : TokenBucket) → (consume now b).0.last_refill ≡ now
unfolding consume
consume_last now b = ground arith

none_yet : (r now : ℕ) → r * (now - now) ≡ 0
none_yet r now =
    let same : now ≤ now = omega arith in omega (arith, elapsed r now now now same same)

pub draw_own :
    (capacity refill from opened now : ℕ) (o : Option TokenBucket)
    → from ≤ opened
    → opened ≤ now
    → IsSound capacity refill from o
    → let (b, taken) = consume now (opened_bucket capacity refill opened o) in
      cost taken + drawable capacity refill now (some b)
      ≤ drawable capacity refill from o + refill * (now - from)
draw_own capacity refill from opened now none h k s =
    let b = opened_bucket capacity refill opened none in
    rw consume_last
      (omega (arith, consume_bound now b, elapsed refill from opened now h k, none_yet refill now))
draw_own capacity refill from opened now (some b) h k (caps, refills, last) =
    let later : from ≤ now = omega arith in
    let bound : cost (consume now b).1 + (consume now b).0.tokens
        ≤ b.tokens + refill * (now - b.last_refill) =
      subst
        (λ r.
          cost (consume now b).1 + (consume now b).0.tokens ≤ b.tokens + r * (now - b.last_refill))
        refills (consume_bound now b) in
    rw consume_last
      (omega (arith, bound, elapsed refill b.last_refill from now last later, none_yet refill now))

pub draw_foreign :
    (capacity refill from now : ℕ) (o : Option TokenBucket)
    → from ≤ now
    → IsSound capacity refill from o
    → drawable capacity refill now o ≤ drawable capacity refill from o + refill * (now - from)
draw_foreign capacity refill from now none h s = omega arith
draw_foreign capacity refill from now (some b) h (caps, refills, last) =
    omega (arith, elapsed refill b.last_refill from now last h)

pub consume-IsSound :
    (capacity refill from opened now : ℕ) (o : Option TokenBucket)
    → IsSound capacity refill from o
    → IsSound capacity refill now (some (consume now (opened_bucket capacity refill opened o)).0)
unfolding consume
consume-IsSound capacity refill from opened now none s = ground arith
consume-IsSound capacity refill from opened now (some b) s = ground (arith, s)

pub IsSound-later :
    (capacity refill from now : ℕ) (o : Option TokenBucket)
    → from ≤ now
    → IsSound capacity refill from o
    → IsSound capacity refill now o
IsSound-later capacity refill from now none h s = tt
IsSound-later capacity refill from now (some b) h (caps, refills, last) =
    (caps, refills, omega arith)
