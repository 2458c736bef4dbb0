-- ===== src/Tests/RateLimits.antt =====
-- Rate limits, on a Redis with one counter.
use Prim.Native.String.{◌++◌}
use hate_sentry.Base.{
  ℕ, suc, ◌≡◌, ◌⊎◌, refl, sym, inl, inr, some, List, map, leb, ◌-◌, arith, if◌then◌else◌,
}
use hate_sentry.Base.Decimal.{Integer, nonnegative, itoa}
use hate_sentry.Base.Integers.{wrapped, int_sub}
use hate_sentry.Errors.{
  Error, Result, ok, err, fail, rate_limit_exceeded, internal, with_details, error_text,
  Result-cases,
}
use hate_sentry.Auth.{ApiKeyPrincipal}
use hate_sentry.RateLimits.{
  Redis, RedisReply, values, int64, state_of, lua_script, redis_integer, enforce, allow_with_state,
  allow,
}
use hate_sentry.Config.{ModerationRateLimitConfig}
use hate_sentry.RateLimits.Middleware.{client_rate_limit_middleware, client_key}
use hate_sentry.RateLimits.Quota.{IsCounter, allowed_calls, allowed_calls-exact}
use hate_sentry.RateLimits.Refused.{client_rate_limit_middleware-counts}

abbrev replied : Result (List Integer) → Result RedisReply
replied (ok result) = ok (values (map int64 result))
replied (err e) = err e

abbrev counter : Redis ℕ
counter = record {
  incr = λ key w. (ok (nonnegative (suc w)), suc w);
  expire = λ key seconds w. (ok tt, w);
  pttl = λ key w. (ok (nonnegative 60000), w);
  eval = λ script w. (replied ((script w).0), (script w).1);
  get_int = λ key w. (ok (some (nonnegative w)), w);
  ttl = λ key w. (ok (nonnegative 60), w);
  now = λ w. (5, w);
  whole_seconds = λ window. nonnegative 60;
}

abbrev forum : ApiKeyPrincipal
forum = record { client_id = 7; user_id = 1; name = "forum" }

counter_law : IsCounter counter (client_key forum) (λ w. w)
counter_law = record {
  incr_counts = λ w n h. let same : nonnegative (suc w) ≡ n = cc in (sym same, refl);
  expire_same = λ n some_time w. refl;
  whole_seconds_pos = λ window lasts. (60, refl, omega arith);
  pttl_same = λ w. refl;
  now_same = λ w. refl;
  eval_runs = λ script w reply h. elim (Result-cases ((script w).0)) [
    | inr (e, failed) ↦ let refused : err e ≡ ok reply = rw failed at h in cc
    | inl (result, ran) ↦
        let made : ok (values (map int64 result)) ≡ ok reply = rw ran at h in
        let same : values (map int64 result) ≡ reply = cc in (result, ran, sym same, refl)
  ];
}

abbrev four : ℕ
four = 4

abbrev two : ℕ
two = 2

-- Two of three calls are left.
allowed_calls-exact_example : two ≡ (if leb 4 (3 - 1) then four else 3 - 1)
unfolding allowed_calls allow allow_with_state enforce lua_script redis_integer state_of wrapped
    int_sub
allowed_calls-exact_example =
    allowed_calls-exact counter (client_key forum) (λ w. w) counter_law 3 60000000000 4 1
      {total = 2} (omega arith) refl

abbrev minute : ModerationRateLimitConfig
minute = record { limit = nonnegative 3; window = nonnegative 60000000000 }

client_rate_limit_middleware-counts_example :
    ((e : Error) × ((allow_with_state
          (some counter)
          ("moderation:client:" ++ itoa 7)
          (nonnegative 3)
          60000000000
          3).0
        ≡ err e)
      × ((client_rate_limit_middleware
            (some (allow_with_state (some counter)))
            minute
            (some forum)
            3).0.passed
          ≡ fail (with_details (internal "Rate limit check failed") (error_text e))))
    ⊎ (((client_rate_limit_middleware
            (some (allow_with_state (some counter)))
            minute
            (some forum)
            3).0.passed
          ≡ fail (rate_limit_exceeded "Client rate limit exceeded"))
        × ((client_rate_limit_middleware
              (some (allow_with_state (some counter)))
              minute
              (some forum)
              3).1
            ≡ 4))
client_rate_limit_middleware-counts_example =
    client_rate_limit_middleware-counts counter forum (λ w. w) counter_law minute 3 60000000000 3
      refl (omega arith) refl (omega arith)
