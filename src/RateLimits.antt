-- ===== src/RateLimits.antt =====
-- internal/cache/rate_limiter.go and the rate limit of internal/router/router.go.
--
-- The script in Lua is translated to its calls of Redis; go-redis, which runs it as one step, is a
-- parameter. A window is a duration that is not negative.
pub mod Middleware
pub mod Quota
pub mod Refused
pub mod Retry
use Prim.Native.String.{◌++◌}
use hate_sentry.Base.{
  ℕ, String, Bool, true, false, ◌+◌, ◌-◌, ◌*◌, ◌/◌, ◌^◌, ◌==◌, Option, none, some, List, [], ◌∷◌,
  ltb, if◌then◌else◌,
}
use hate_sentry.Base.Decimal.{Integer, nonnegative, negative, parse_int, itoa}
use hate_sentry.Base.Integers.{int_ltb, int_leb, int_sub, wrapped, difference}
use hate_sentry.Errors.{
  Error, Result, ok, err, raised, internal, with_details, error_text, plain_error,
}
use hate_sentry.Exec.{Exec, pure, raise, lift, run, continue, ◌>>=◌, ◌>>◌}
use hate_sentry.Models.{Time}

-- An `interface{}` that go-redis returns, by its dynamic type.
pub data RedisValue : Type 0 where
  int int8 int16 int32 int64 : Integer → RedisValue
  uint uint8 uint16 uint32 uint64 : ℕ → RedisValue
  text bytes : String → RedisValue
  other : RedisValue

pub data RedisReply : Type 0 where
  values : List RedisValue → RedisReply
  single : RedisValue → RedisReply

pub record Redis (W : Type 0) : Type 0 where
  -- `redis.call("incr", key)`, `redis.call("expire", key, seconds)`, `redis.call("pttl", key)`.
  pub incr : String → Exec W Integer
  pub expire : String → Integer → Exec W (Unit {0})
  pub pttl : String → Exec W Integer
  -- `client.Eval(…).Result()` of a script that returns a table of integers.
  pub eval : Exec W (List Integer) → Exec W RedisReply
  -- `client.Get(ctx, key).Int()`, without a value for `redis.Nil`, and `client.TTL`.
  pub get_int : String → Exec W (Option Integer)
  pub ttl : String → Exec W Integer
  -- `time.Now`.
  pub now : W → Time × W
  -- `int(d.Seconds())`, which rounds a float64.
  pub whole_seconds : Time → Integer

pub record RateLimitState : Type 0 where
  pub allowed : Bool
  pub enforced : Bool
  pub limit : Integer
  pub remaining : Integer
  pub reset_at : Time
  pub retry_after : Integer

-- `t.Add(d)`.
abbrev pub add_time : Time → Integer → Time
add_time t (nonnegative d) = t + d
add_time t (negative d) = t - (d + 1)

abbrev fits_int64 : ℕ → Result Integer
fits_int64 n =
    if ltb n (2 ^ 63)
    then ok (nonnegative n)
    else err (plain_error ("redis integer " ++ itoa n ++ " overflows int64"))

abbrev parsed_int : Option Integer → Result Integer
parsed_int none = err (plain_error "strconv.ParseInt: invalid syntax")
parsed_int (some n) = ok n

-- `redisInteger`; the narrow types stand for their own ranges.
unfoldable pub redis_integer : RedisValue → Result Integer
unfolding parse_int
redis_integer (int n) = ok n
redis_integer (int8 n) = ok n
redis_integer (int16 n) = ok n
redis_integer (int32 n) = ok n
redis_integer (int64 n) = ok n
redis_integer (uint n) = fits_int64 n
redis_integer (uint8 n) = ok (nonnegative n)
redis_integer (uint16 n) = ok (nonnegative n)
redis_integer (uint32 n) = ok (nonnegative n)
redis_integer (uint64 n) = fits_int64 n
redis_integer (text s) = parsed_int (parse_int s)
redis_integer (bytes s) = parsed_int (parse_int s)
redis_integer other = err (plain_error "unexpected redis integer type")

-- A call whose error is reported with these words.
abbrev pub limited : {A : Type 0} → String → Result A → Result A
limited message (ok a) = ok a
limited message (err e) = err (raised (with_details (internal message) (error_text e)))

abbrev two_values : RedisReply → Result (RedisValue × RedisValue)
two_values (values (a ∷ b ∷ [])) = ok (a, b)
two_values _ =
    err (raised (with_details (internal "Rate limiter error") "unexpected redis script result"))

-- `if ttlMilliseconds < 0 {ttlMilliseconds = window.Milliseconds() }`.
abbrev ttl_or_window : Integer → Time → ℕ
ttl_or_window (nonnegative ms) window = ms
ttl_or_window (negative ms) window = window / 1000000

abbrev pub remaining_of : Integer → Integer → Integer
remaining_of current limit = if int_ltb current limit then int_sub limit current else nonnegative 0

-- The state after so many calls, where the clock shows `now`.
unfoldable pub state_of : Integer → Integer → Integer → Time → Time → RateLimitState
unfolding wrapped int_sub
state_of limit current ttl window now =
    let reset_at = add_time now (wrapped (ttl_or_window ttl window * 1000000)) in
    record {
      allowed = int_leb current limit;
      enforced = true;
      limit = limit;
      remaining = remaining_of current limit;
      reset_at = reset_at;
      retry_after = difference reset_at now;
    }

abbrev unlimited : Integer → RateLimitState
unlimited limit = record {
  allowed = true;
  enforced = false;
  limit = limit;
  remaining = limit;
  reset_at = 0;
  retry_after = nonnegative 0;
}

abbrev pub is_one : Integer → Bool
is_one (nonnegative n) = n == 1
is_one (negative n) = false

abbrev pub reporting : {W A : Type 0} → String → Exec W A → Exec W A
reporting message m w = let (r, w') = m w in (limited message r, w')

module _ {W : Type 0} (redis : Redis W) where
  abbrev pub expire_first : Bool → String → Integer → Exec W (Unit {0})
  expire_first true key seconds = redis.expire key seconds
  expire_first false key seconds = pure tt

  -- `luaScript`.
  unfoldable pub lua_script : String → Integer → Exec W (List Integer)
  lua_script key seconds = do
    current ← redis.incr key
    expire_first (is_one current) key seconds
    pttl ← redis.pttl key
    pure (current ∷ pttl ∷ [])

  -- `AllowWithState` of a limiter with a client.
  unfoldable pub enforce : String → Integer → Time → Exec W RateLimitState
  unfolding lua_script redis_integer state_of
  enforce key limit window = do
    reply ←
        reporting "Rate limiter error" (redis.eval (lua_script key (redis.whole_seconds window)))
    (first, second) ← lift (two_values reply)
    current ← lift (limited "Rate limiter error" (redis_integer first))
    ttl ← lift (limited "Rate limiter error" (redis_integer second))
    now ← run redis.now
    pure (state_of limit current ttl window now)

module _ {W : Type 0} (client : Option (Redis W)) where
  -- `AllowWithState`: without a client everything is allowed.
  unfoldable pub allow_with_state : String → Integer → Time → Exec W RateLimitState
  allow_with_state key limit window = elim client [
    | none ↦ pure (unlimited limit)
    | some redis ↦ enforce redis key limit window
  ]

  -- `Allow`.
  unfoldable pub allow : String → Integer → Time → Exec W Bool
  allow key limit window = do state ← allow_with_state key limit window; pure state.allowed

  abbrev current_of : Option Integer → Integer
  current_of none = nonnegative 0
  current_of (some n) = n

  -- `GetRemaining`: the count of the key, and the time at which it ends.
  unfoldable pub get_remaining : String → Exec W (Integer × Time)
  get_remaining key = elim client [
    | none ↦ pure (nonnegative 0, 0)
    | some redis ↦ do
      current ← reporting "Failed to get rate limit current value" (redis.get_int key)
      ttl ← reporting "Failed to get rate limit TTL" (redis.ttl key)
      now ← run redis.now
      pure (current_of current, add_time now ttl)
  ]
