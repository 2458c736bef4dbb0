-- ===== src/RateLimits/Refused.antt =====
-- internal/router/router.go: which requests of a client the rate limit refuses.
use Prim.Native.String.{◌++◌}
use hate_sentry.Base.{
  ℕ, suc, ◌<◌, ◌≤◌, ◌==◌, false, ◌≡◌, ◌⊎◌, inl, inr, refl, some, ltb, arith, Bool-cases,
  if◌then◌else◌,
}
use hate_sentry.Base.Decimal.{nonnegative, itoa}
use hate_sentry.Base.Integers.{int_leb}
use hate_sentry.Errors.{
  Error, ok, err, fail, rate_limit_exceeded, internal, with_details, error_text, Result-cases,
}
use hate_sentry.Auth.{ApiKeyPrincipal}
use hate_sentry.RateLimits.{Redis, RateLimitState, enforce, allow_with_state}
use hate_sentry.Config.{ModerationRateLimitConfig}
use hate_sentry.RateLimits.Middleware.{client_rate_limit_middleware, client_key, passage_of}
use hate_sentry.RateLimits.Quota.{IsCounter, second, enforce-ok}

passed-allowed :
    (state : RateLimitState) (before limit : ℕ)
    → state.allowed ≡ ltb before limit
    → (passage_of (ok state)).passed ≡ (
        if ltb before limit then ok tt else fail (rate_limit_exceeded "Client rate limit exceeded"))
unfolding passage_of
passed-allowed state before limit h = elim (Bool-cases (ltb before limit)) [
  | inl more ↦ rw (h, more) refl
  | inr full ↦ rw (h, full) refl
]

module _ {W : Type 0} (redis : Redis W) (principal : ApiKeyPrincipal) (count : W → ℕ)
    (law : IsCounter redis (client_key principal) count) where
  -- The middleware lets the request of a client on exactly if the window has seen fewer than the
  -- limit, refuses it as too many otherwise, and counts it, unless the limiter's check for the key
  -- of the client fails, and then it is refused as an internal error, with the text of this
  -- failure. The limit is positive, and the window is a second or more. While the window lasts,
  -- Redis counts.
  pub client_rate_limit_middleware-counts :
      (cfg : ModerationRateLimitConfig) (limit window : ℕ) (w : W)
      → cfg.limit ≡ nonnegative limit
      → 0 < limit
      → cfg.window ≡ nonnegative window
      → second ≤ window
      → ((e : Error) × ((allow_with_state
              (some redis)
              ("moderation:client:" ++ itoa principal.client_id)
              cfg.limit
              window
              w).0
            ≡ err e)
          × ((client_rate_limit_middleware
                (some (allow_with_state (some redis)))
                cfg
                (some principal)
                w).0.passed
              ≡ fail (with_details (internal "Rate limit check failed") (error_text e))))
        ⊎ (((client_rate_limit_middleware
                (some (allow_with_state (some redis)))
                cfg
                (some principal)
                w).0.passed
              ≡ (if ltb (count w) limit
                  then ok tt
                  else fail (rate_limit_exceeded "Client rate limit exceeded")))
            × (count (
                  (client_rate_limit_middleware
                    (some (allow_with_state (some redis)))
                    cfg
                    (some principal)
                    w).1)
                ≡ suc (count w)))
  unfolding client_rate_limit_middleware allow_with_state passage_of
  client_rate_limit_middleware-counts cfg limit window w limited some_limit lasting some_window =
      let on : int_leb (nonnegative limit) (nonnegative 0) ≡ false = ground arith in
      let lasts : (window == 0) ≡ false = ground arith in
      elim (Result-cases ((enforce redis (client_key principal) (nonnegative limit) window w).0)) [
        | inr (e, failed) ↦
            inl (e, rw (limited, failed) refl, rw (limited, lasting, on, lasts, failed) refl)
        | inl (state, done) ↦
            let (counted, grown) =
              enforce-ok redis (client_key principal) count law limit window w some_window done in
            inr (
              rw (limited, lasting, on, lasts, done)
                  (passed-allowed state (count w) limit counted.within),
              rw (limited, lasting, on, lasts) grown,
            )
      ]
