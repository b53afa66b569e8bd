-- ===== src/Queue/Retry.antt =====
-- internal/queue/retry.go. Durations and times count nanoseconds in an int64; a product wraps.
pub mod Bounds
use matfix.Shared.{
  ℕ, suc, ◌+◌, ◌-◌, ◌*◌, ◌^◌, ◌/◌, ◌%◌, ◌≤◌, ◌<◌, ◌≡◌, refl, Bool, true, false, ◌&&◌, arith, ℤ, pos,
  negsuc, pos_part, neg_part, sub_ℕ, ◌+ℤ◌, ◌*ℤ◌, ◌≤ℤ◌, ltb_ℤ, leb_ℤ, ltb, leb, if◌then◌else◌,
  +ℤ_parts,
}

-- config.BackoffPolicy; any text but "linear" takes the `default` of the switch.
pub data BackoffPolicy : Type 0 where
  linear exponential : BackoffPolicy

-- config.RetryPolicyConfig, as far as the queue reads it.
pub record RetryPolicy : Type 0 where
  pub max_retries : ℕ
  pub backoff_policy : BackoffPolicy
  pub initial_interval : ℤ
  pub max_interval : ℤ

-- The float64 operations of the exponential branch: the conversions, math.Pow(2, x) and the product.
pub record Float64 : Type 1 where
  pub Float : Type 0
  pub of_int : ℤ → Float
  pub pow2 : Float → Float
  pub times : Float → Float → Float
  pub to_int64 : Float → ℤ

-- IEEE 754 and the Go specification: an integer below 2^53 is represented exactly, and so is its
-- product with a power of two; the conversion back is exact while the value fits an int64. Beyond
-- that the conversion is implementation-defined, and nothing is assumed; nor of a factor 0, whose
-- product with a power that overflows to infinity is no number.
pub record IsExact (f : Float64) : Type 0 where
  pub scaled :
      (d k : ℕ)
      → 1 ≤ d
      → d < 2 ^ 53
      → d * 2 ^ k < 2 ^ 63
      → f.to_int64 (f.times (f.of_int (pos d)) (f.pow2 (f.of_int (pos k)))) ≡ pos (d * 2 ^ k)

-- Two's complement of 64 bits.
unfoldable pub wrap64 : ℤ → ℤ
wrap64 (pos n) = let r = n % 2 ^ 64 in if ltb r (2 ^ 63) then pos r else negsuc (2 ^ 64 - 1 - r)
wrap64 (negsuc n) = let r = n % 2 ^ 64 in if ltb r (2 ^ 63) then negsuc r else pos (2 ^ 64 - 1 - r)

module _ (f : Float64) where
  backoff : RetryPolicy → BackoffPolicy → ℕ → ℤ
  unfolding wrap64 ◌*ℤ◌ ◌+ℤ◌
  backoff policy linear retry_count = wrap64 (policy.initial_interval *ℤ pos retry_count)
  backoff policy exponential retry_count =
      f.to_int64 (
        f.times (f.of_int policy.initial_interval)
          (f.pow2 (f.of_int (pos retry_count +ℤ negsuc 0))))

  cap : ℤ → ℤ → ℤ
  cap max interval = if ltb_ℤ (pos 0) max && ltb_ℤ max interval then max else interval

  unfoldable pub next_interval : RetryPolicy → ℕ → ℤ
  unfolding backoff cap
  next_interval policy retry_count =
      cap policy.max_interval (backoff policy policy.backoff_policy retry_count)

  -- `now` is time.Now() in nanoseconds.
  unfoldable pub next_scheduled_at : RetryPolicy → ℕ → ℤ → ℤ
  unfolding next_interval
  next_scheduled_at policy retry_count now = now +ℤ next_interval policy retry_count

-- Time.UnixMilli: the floor of the nanoseconds over 10^6.
unfoldable pub unix_milli : ℤ → ℤ
unix_milli (pos n) = pos (n / 1000000)
unix_milli (negsuc n) = negsuc (n / 1000000)

unfoldable pub is_exhausted : RetryPolicy → ℕ → Bool
is_exhausted policy retry_count = ltb policy.max_retries retry_count
