-- ===== src/RateLimits/Middleware.antt =====
-- internal/router/router.go: `clientRateLimitMiddleware` and the headers that it sets.
use Prim.Native.String.{◌++◌ as concat}
use hate_sentry.Base.{
  ℕ, ◌+◌, ◌-◌, ◌/◌, ◌%◌, String, ◌||◌, not, Option, none, some, List, [], ◌∷◌, ◌++◌, ltb, ◌==◌,
  if◌then◌else◌,
}
use hate_sentry.Base.Decimal.{Integer, nonnegative, negative, itoa}
use hate_sentry.Base.Integers.{int_leb, int_div, int_text, wrapped, difference}
use hate_sentry.Errors.{
  Result, ok, err, fail, internal, with_details, error_text, rate_limit_exceeded,
}
use hate_sentry.Exec.{Exec}
use hate_sentry.Models.{Time, is_zero_time}
use hate_sentry.Auth.{ApiKeyPrincipal}
use hate_sentry.Config.{ModerationRateLimitConfig}
use hate_sentry.RateLimits.{RateLimitState}

abbrev pub second : ℕ
second = 1000000000

-- Go's zero time and the epoch of Unix are so many seconds apart.
abbrev unix_epoch : ℕ
unix_epoch = 62135596800

-- `rateLimitRetryAfterSeconds`.
unfoldable pub rate_limit_retry_after_seconds : Integer → Integer
unfolding int_div wrapped
rate_limit_retry_after_seconds (negative d) = nonnegative 0
rate_limit_retry_after_seconds (nonnegative d) =
    if d == 0 then nonnegative 0 else int_div (wrapped (d + second - 1)) second

-- `rateLimitResetUnixSeconds`.
unfoldable pub rate_limit_reset_unix_seconds : Time → Integer
rate_limit_reset_unix_seconds reset_at =
    if is_zero_time reset_at
    then nonnegative 0
    else if ltb 0 (reset_at % second)
    then difference (reset_at / second + 1) unix_epoch
    else difference (reset_at / second) unix_epoch

-- `setRateLimitHeaders`.
unfoldable pub rate_limit_headers : RateLimitState → List (String × String)
unfolding rate_limit_reset_unix_seconds
rate_limit_headers state =
    if not state.enforced
    then []
    else ("X-RateLimit-Limit", int_text state.limit)
      ∷ ("X-RateLimit-Remaining", int_text state.remaining)
      ∷ ("X-RateLimit-Reset", int_text (rate_limit_reset_unix_seconds state.reset_at))
      ∷ []

-- The headers that are set, and whether the request goes on.
pub record Passage : Type 0 where
  pub headers : List (String × String)
  pub passed : Result (Unit {0})

abbrev pub goes_on : List (String × String) → Passage
goes_on headers = record { headers = headers; passed = ok tt }

-- What follows a check.
unfoldable pub passage_of : Result RateLimitState → Passage
unfolding rate_limit_headers rate_limit_retry_after_seconds
passage_of (err e) = record {
  headers = [];
  passed = fail (with_details (internal "Rate limit check failed") (error_text e));
}
passage_of (ok state) =
    if not state.allowed
    then record {
      headers =
          rate_limit_headers state
          ++ (("Retry-After", int_text (rate_limit_retry_after_seconds state.retry_after)) ∷ []);
      passed = fail (rate_limit_exceeded "Client rate limit exceeded");
    }
    else goes_on (rate_limit_headers state)

abbrev pub client_key : ApiKeyPrincipal → String
client_key principal = concat "moderation:client:" (itoa principal.client_id)

-- `requestRateLimiter`.
abbrev pub RequestRateLimiter : Type 0 → Type 0
RequestRateLimiter W = String → Integer → Time → Exec W RateLimitState

-- A check under the limit and the window of the configuration, when both are positive.
abbrev pub checked :
    {W : Type 0} → RequestRateLimiter W → String → Integer → Integer → W → Passage × W
checked limiter key limit (negative d) w = (goes_on [], w)
checked limiter key limit (nonnegative d) w =
    if int_leb limit (nonnegative 0) || (d == 0)
    then (goes_on [], w)
    else let (state, w') = limiter key limit d w in (passage_of state, w')

-- `clientRateLimitMiddleware`, on the principal that the context holds.
unfoldable pub client_rate_limit_middleware :
    {W : Type 0}
    → Option (RequestRateLimiter W)
    → ModerationRateLimitConfig
    → Option ApiKeyPrincipal
    → W
    → Passage × W
unfolding passage_of
client_rate_limit_middleware limiter cfg none w = (goes_on [], w)
client_rate_limit_middleware none cfg (some principal) w = (goes_on [], w)
client_rate_limit_middleware (some limiter) cfg (some principal) w =
    checked limiter (client_key principal) cfg.limit cfg.window w
