-- ===== src/Api/RateLimit.antt =====
-- internal/api/ratelimit.go over the token buckets of golang.org/x/time/rate, which are a parameter.
use matfix.Shared.{String, Bool, Option, none, some, ◌==◌, if◌then◌else◌, ℤ, pos, leb_ℤ, ◌*ℤ◌, ◌&&◌}
use matfix.Api.Response.{Response, failure, success}
use matfix.Api.Auth.{Caller}

-- rate.NewLimiter, Limiter.Limit as an int, and Limiter.Allow at a reading of the clock.
pub record Buckets (L : Type 0) : Type 0 where
  pub new_limiter : ℤ → ℤ → L
  pub limit : L → ℤ
  pub allows : ℤ → L → Bool × L

abbrev pub default_rate_limit_rps : ℤ
default_rate_limit_rps = pos 100

module _ {L : Type 0} (buckets : Buckets L) where
  abbrev pub Limiters : Type 0
  Limiters = String → Option L

  unfoldable pub limiter_for : ℤ → Option L → L
  limiter_for rps none = buckets.new_limiter rps (rps *ℤ pos 2)
  limiter_for rps (some l) =
      if leb_ℤ (buckets.limit l) rps && leb_ℤ rps (buckets.limit l)
      then l
      else buckets.new_limiter rps (rps *ℤ pos 2)

  abbrev pub put : String → L → Limiters → Limiters
  put key l limiters k = if k == key then some l else limiters k

  unfoldable pub allow : String → ℤ → ℤ → Limiters → Bool × Limiters
  unfolding limiter_for
  allow key rps now limiters =
      let wanted = if leb_ℤ rps (pos 0) then default_rate_limit_rps else rps in
      let (allowed, l) = buckets.allows now (limiter_for wanted (limiters key)) in
      (allowed, put key l limiters)

  -- The middleware; `success` stands for the call of the next handler.
  unfoldable pub limited : ℤ → Caller → Limiters → Response (Unit {0}) × Limiters
  unfolding allow
  limited now (perms, key) limiters =
      if key == ""
      then (success 200 tt, limiters)
      else (let (allowed, limiters') = allow key perms.rate_limit_rps now limiters in
          (if allowed then success 200 tt else failure 429 "rate_limited", limiters'))
