-- ===== src/RateLimits/Retry.antt =====
-- internal/router/router.go: how long a client that is refused is told to wait.
use hate_sentry.Base.{
  ℕ, ◌+◌, ◌-◌, ◌*◌, ◌/◌, ◌%◌, ◌^◌, ◌≤◌, ◌<◌, ◌≡◌, refl, ◌==◌, ltb, true, false, Bool-cases, inl,
  inr, arith,
}
use hate_sentry.Base.Decimal.{nonnegative}
use hate_sentry.Base.Integers.{wrapped, int_div}
use hate_sentry.Models.{Time}
use hate_sentry.RateLimits.Middleware.{
  second, rate_limit_retry_after_seconds, rate_limit_reset_unix_seconds,
}

wrapped-small : (n : ℕ) → n < 2 ^ 63 → wrapped n ≡ nonnegative n
unfolding wrapped
wrapped-small n h =
    let same : n % (2 ^ 64) ≡ n = omega arith in
    let fits : ltb n (2 ^ 63) ≡ true = ground arith in rw (same, fits) refl

-- The seconds of `Retry-After` are the fewest whole ones that cover the duration, when there is
-- one and it is a second short of the longest duration.
pub rate_limit_retry_after_seconds_least :
    (d : ℕ)
    → 0 < d
    → d + second ≤ 2 ^ 63
    → (s : ℕ) × (rate_limit_retry_after_seconds (nonnegative d) ≡ nonnegative s)
      × (d ≤ s * second)
      × (s * second < d + second)
unfolding rate_limit_retry_after_seconds int_div
rate_limit_retry_after_seconds_least d some_time fits =
    let running : (d == 0) ≡ false = ground arith in
    let whole = wrapped-small (d + second - 1) (omega arith) in
    ((d + second - 1) / second, rw (running, whole) refl, omega arith, omega arith)

-- The second of `X-RateLimit-Reset` is the first whole one of Unix's clock that is not before the
-- time, when that is after the epoch.
pub rate_limit_reset_unix_seconds_least :
    (t : Time)
    → 62135596800 * second < t
    → (s : ℕ) × (rate_limit_reset_unix_seconds t ≡ nonnegative s)
      × (t ≤ (s + 62135596800) * second)
      × ((s + 62135596800) * second < t + second)
unfolding rate_limit_reset_unix_seconds
rate_limit_reset_unix_seconds_least t after = elim (Bool-cases (ltb 0 (t % second))) [
  | inl part ↦ (t / second + 1 - 62135596800, ground arith, ground arith, ground arith)
  | inr whole ↦ (t / second - 62135596800, ground arith, ground arith, ground arith)
]
