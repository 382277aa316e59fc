-- ===== src/Access/Limiter.antt =====
-- `TokenBucket`, `RateLimiterStore` and `rateLimiterMiddleware.Process` (internal/transport/http/middleware.go).
-- Instants are nanoseconds of the monotonic clock. The code computes in float64: here tokens are whole numbers
-- of 10⁻⁹ tokens, `refill` is the whole number of tokens per second, and sums and products are exact.
pub mod Bucket
pub mod Stores
pub mod Bounds
use release_engine.Prelude.{
  [], ℕ, String, Bool, true, false, Option, none, some, ◌+◌, ◌-◌, ◌*◌, ◌/◌, leb, ltb, eqb,
  if◌then◌else◌, Dict, lookup, insert,
}

pub record TokenBucket : Type 0 where
  pub tokens : ℕ
  pub capacity : ℕ
  pub refill : ℕ
  pub last_refill : ℕ

pub record RateLimiterStore : Type 0 where
  pub buckets : Dict TokenBucket
  pub capacity : ℕ
  pub refill : ℕ

abbrev pub one_token : ℕ
one_token = 1_000_000_000

-- `NewRateLimiterStore`
abbrev pub new_rate_limiter_store : ℕ → ℕ → RateLimiterStore
new_rate_limiter_store capacity refill = record {
  buckets = [];
  capacity = capacity;
  refill = refill;
}

-- `GetBucket`, at the instant that a new bucket takes.
unfoldable pub get_bucket : ℕ → String → RateLimiterStore → RateLimiterStore × TokenBucket
get_bucket now tenant st = elim (lookup tenant st.buckets) [
  | some b ↦ (st, b)
  | none ↦
      let b : TokenBucket = record {
        tokens = st.capacity;
        capacity = st.capacity;
        refill = st.refill;
        last_refill = now;
      } in
      (record st { buckets = insert tenant b st.buckets }, b)
]

-- The tokens at `now`.
unfoldable pub refilled : ℕ → TokenBucket → ℕ
refilled now b =
    let tokens = b.tokens + b.refill * (now - b.last_refill) in
    if ltb b.capacity tokens then b.capacity else tokens

-- `Consume`
unfoldable pub consume : ℕ → TokenBucket → TokenBucket × Bool
unfolding refilled
consume now b =
    let tokens = refilled now b in
    if leb one_token tokens
    then (record b { tokens = tokens - one_token; last_refill = now }, true)
    else (record b { tokens = tokens; last_refill = now }, false)

-- `RemainingTokens`
unfoldable pub remaining_tokens : ℕ → TokenBucket → ℕ
unfolding refilled
remaining_tokens now b = refilled now b

-- `RetryAfter`; `none` is what `int` makes of the infinity that a division by a zero refill is.
unfoldable pub retry_after : TokenBucket → Option ℕ
retry_after b =
    if leb one_token b.tokens
    then some 0
    else if eqb b.refill 0
    then none
    else some ((one_token - b.tokens) / (b.refill * one_token) + 1)

-- The next handler runs, or the answer is 429 with its header Retry-After.
pub data Verdict : Type 0 where
  passed : Verdict
  limited : (retry : Option ℕ) → Verdict

-- The value of the context under `tenant_id`, where it is a text.
abbrev pub tenant_or_default : Option String → String
tenant_or_default none = "default"
tenant_or_default (some tenant) = tenant

-- `Process`, which reads the clock for a new bucket and for the consumption.
unfoldable pub process :
    (opened now : ℕ) → Option String → RateLimiterStore → RateLimiterStore × Verdict
process opened now tenant st =
    let (held, b) = get_bucket opened (tenant_or_default tenant) st in
    let (b', taken) = consume now b in
    (
      record held { buckets = insert (tenant_or_default tenant) b' held.buckets },
      if taken then passed else limited (retry_after b'),
    )
