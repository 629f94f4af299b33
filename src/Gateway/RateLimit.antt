-- ===== src/Gateway/RateLimit.antt =====
-- connector_gateway/rate_limit.py: the sliding-window limiter. Its clock, monotonic seconds as a
-- float, is a number of ticks, so many to a second; rounding of floats is not modelled.
pub mod Window
pub mod Promises
use adx_agentic_payment.Base.{
  ℕ, ◌+◌, ◌-◌, ◌*◌, ◌/◌, String, string_eq, Bool, true, false, Option, none, some, List, [], ◌∷◌,
  ◌++◌, leb, length, is_nil, if◌then◌else◌, max, Result, ok, err,
}
use adx_agentic_payment.Base.Dict
use adx_agentic_payment.Base.Dict.{Dict}

-- `RateLimitExceeded` with its seconds; `index_error` is `bucket[0]` of an empty bucket.
pub data RateError : Type 0 where
  rate_limit_exceeded : ℕ → RateError
  index_error : RateError

pub record SlidingWindowRateLimiter : Type 0 where
  pub attempts : ℕ
  pub window_seconds : ℕ
  pub max_keys : ℕ
  pub buckets : Dict String (List ℕ)

abbrev pub new_limiter : ℕ → ℕ → ℕ → SlidingWindowRateLimiter
new_limiter attempts window_seconds max_keys = record {
  attempts = attempts;
  window_seconds = window_seconds;
  max_keys = max_keys;
  buckets = Dict.empty;
}

-- `while bucket and bucket[0] <= cutoff: bucket.popleft()`, for the cutoff `now - window`.
abbrev pub drop_expired : ℕ → ℕ → List ℕ → List ℕ
drop_expired window now [] = []
drop_expired window now (t ∷ ts) =
    let rest = drop_expired window now ts in if leb (t + window) now then rest else t ∷ ts

-- `_purge_expired_buckets`, on the buckets in their order.
abbrev pub purge : ℕ → ℕ → List (String × List ℕ) → List (String × List ℕ)
purge window now [] = []
purge window now ((key, bucket) ∷ rest) =
    let later = purge window now rest in
    if is_nil (drop_expired window now bucket)
    then later
    else (key, drop_expired window now bucket) ∷ rest

-- `math.ceil` of ticks in seconds.
abbrev pub ceil_seconds : ℕ → ℕ → ℕ
ceil_seconds second ticks = (ticks + second - 1) / second

module _ (second : ℕ) where
  abbrev pub window : SlidingWindowRateLimiter → ℕ
  window l = l.window_seconds * second

  abbrev pub retry_error : SlidingWindowRateLimiter → ℕ → List ℕ → RateError
  retry_error l now [] = index_error
  retry_error l now (t ∷ ts) =
      rate_limit_exceeded (max 1 (ceil_seconds second (t + window l - now)))

  -- The rest of `check` on the bucket, which is put at the end of the other buckets.
  abbrev pub admit :
      SlidingWindowRateLimiter
      → String
      → ℕ
      → Dict String (List ℕ)
      → List ℕ
      → Result RateError (Unit {0}) × SlidingWindowRateLimiter
  admit l key now others bucket =
      if leb l.attempts (length bucket)
      then (err (retry_error l now bucket), record l { buckets = Dict.put others key bucket })
      else (ok tt, record l { buckets = Dict.put others key (bucket ++ now ∷ []) })

  abbrev pub check_bucket :
      SlidingWindowRateLimiter
      → String
      → ℕ
      → Dict String (List ℕ)
      → Option (List ℕ)
      → Result RateError (Unit {0}) × SlidingWindowRateLimiter
  check_bucket l key now buckets none =
      if leb l.max_keys (Dict.size buckets)
      then (err (rate_limit_exceeded l.window_seconds), record l { buckets = buckets })
      else admit l key now buckets []
  check_bucket l key now buckets (some bucket) =
      admit l key now (Dict.del buckets key) (drop_expired (window l) now bucket)

  abbrev pub purged : SlidingWindowRateLimiter → ℕ → Dict String (List ℕ)
  purged l now = record { entries = purge (window l) now l.buckets.entries }

  -- `SlidingWindowRateLimiter.check` of a key at a time.
  unfoldable pub check :
      String → ℕ → SlidingWindowRateLimiter → Result RateError (Unit {0}) × SlidingWindowRateLimiter
  check key now l = check_bucket l key now (purged l now) (Dict.get (purged l now) key)
