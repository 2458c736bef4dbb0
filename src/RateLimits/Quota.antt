-- ===== src/RateLimits/Quota.antt =====
-- internal/cache/rate_limiter.go, internal/router/router.go: how many calls a window allows.
use hate_sentry.Base.{
  ℕ, zero, suc, ◌-◌, ◌<◌, ◌≤◌, String, Bool, true, false, ◌≡◌, inl, inr, refl, sym, ap, ◌∙◌, some,
  List, [], ◌∷◌, map, ltb, leb, arith, Bool-cases, if◌then◌else◌,
}
use hate_sentry.Base.Decimal.{Integer, nonnegative}
use hate_sentry.Base.Integers.{int_sub}
use hate_sentry.Errors.{ok, err, Result-cases}
use hate_sentry.Exec.{Exec, Preserves, pure, ◌>>=◌}
use hate_sentry.Models.{Time}
use hate_sentry.RateLimits.{
  Redis, RedisReply, values, int64, RateLimitState, state_of, lua_script, expire_first, is_one,
  redis_integer, enforce, allow_with_state, allow,
}

-- A second, in nanoseconds.
abbrev pub second : ℕ
second = 1000000000

-- What Redis and go-redis document, while the window of a key lasts: `count w` is the number that
-- stands under the key, and 0 when there is none. `INCR` counts, the other calls do not, and
-- `Eval` runs the script and returns its integers. `EXPIRE` deletes the key when it is given no
-- positive number of seconds, so nothing is said of it then; a window of a second or more has a
-- positive number of whole seconds.
pub record IsCounter {W : Type 0} (redis : Redis W) (key : String) (count : W → ℕ) : Type 0 where
  pub incr_counts :
      (w : W) (n : Integer)
      → (redis.incr key w).0 ≡ ok n
      → (n ≡ nonnegative (suc (count w))) × (count ((redis.incr key w).1) ≡ suc (count w))
  pub expire_same : (n : ℕ) → 0 < n → Preserves count (redis.expire key (nonnegative n))
  pub whole_seconds_pos :
      (window : Time)
      → second ≤ window
      → (n : ℕ) × (redis.whole_seconds window ≡ nonnegative n) × (0 < n)
  pub pttl_same : Preserves count (redis.pttl key)
  pub now_same : (w : W) → count ((redis.now w).1) ≡ count w
  pub eval_runs :
      (script : Exec W (List Integer)) (w : W) (reply : RedisReply)
      → (redis.eval script w).0 ≡ ok reply
      → (result : List Integer) × ((script w).0 ≡ ok result)
        × (reply ≡ values (map int64 result))
        × (count ((redis.eval script w).1) ≡ count ((script w).1))

-- The state of a call before which the window has seen so many.
pub record IsCounted (before limit : ℕ) (state : RateLimitState) : Type 0 where
  pub is_enforced : state.enforced ≡ true
  pub within : state.allowed ≡ ltb before limit
  pub left : state.remaining ≡ nonnegative (limit - suc before)

state_of-IsCounted :
    (limit before : ℕ) (ttl : Integer) (window now : Time)
    → IsCounted before limit
        (state_of (nonnegative limit) (nonnegative (suc before)) ttl window now)
unfolding state_of int_sub
state_of-IsCounted limit before ttl window now = record {
  is_enforced = refl;
  within = ground arith;
  left = elim (Bool-cases (ltb (suc before) limit)) [
    | inl more ↦ let fits : leb (suc before) limit ≡ true = ground arith in rw (more, fits) refl
    | inr last ↦ rw last (ap nonnegative (ground arith))
  ];
}

module _ {W : Type 0} (redis : Redis W) (key : String) (count : W → ℕ)
    (law : IsCounter redis key count) where
  expire-Preserves :
      (first : Bool) (n : ℕ)
      → 0 < n
      → Preserves count (expire_first redis first key (nonnegative n))
  expire-Preserves true n some_time = law.expire_same n some_time
  expire-Preserves false n some_time = λ w. refl

  lua_script-ok :
      (seconds : ℕ) (w : W) {result : List Integer}
      → 0 < seconds
      → (lua_script redis key (nonnegative seconds) w).0 ≡ ok result
      → (ttl : Integer) × (result ≡ nonnegative (suc (count w)) ∷ ttl ∷ [])
        × (count ((lua_script redis key (nonnegative seconds) w).1) ≡ suc (count w))
  unfolding lua_script
  lua_script-ok seconds w {result} some_time h = elim (Result-cases ((redis.incr key w).0)) [
    | inr (e, failed) ↦ let refused : err _ ≡ ok result = rw failed at h in cc
    | inl (n, counted) ↦
        let w1 = (redis.incr key w).1 in
        let (number, grown) = law.incr_counts w n counted in
        elim (Result-cases ((expire_first redis (is_one n) key (nonnegative seconds) w1).0)) [
          | inr (e, failed) ↦ let refused : err _ ≡ ok result = rw (counted, failed) at h in cc
          | inl (done, expiring) ↦
              let w2 = (expire_first redis (is_one n) key (nonnegative seconds) w1).1 in
              elim (Result-cases ((redis.pttl key w2).0)) [
                | inr (e, failed) ↦
                    let refused : err _ ≡ ok result = rw (counted, expiring, failed) at h in cc
                | inl (ttl, read) ↦
                    let made : ok (n ∷ ttl ∷ []) ≡ ok result = rw (counted, expiring, read) at h in
                    let same : result ≡ n ∷ ttl ∷ [] = cc in
                    (
                      ttl,
                      same ∙ ap (λ k. k ∷ ttl ∷ []) number,
                      rw (counted, expiring, read)
                          (law.pttl_same w2
                            ∙ expire-Preserves (is_one n) seconds some_time w1
                            ∙ grown),
                    )
              ]
        ]
  ]

  -- A check that succeeds is the next one of the window.
  pub enforce-ok :
      (limit : ℕ) (window : Time) (w : W) {state : RateLimitState}
      → second ≤ window
      → (enforce redis key (nonnegative limit) window w).0 ≡ ok state
      → IsCounted (count w) limit state
        × (count ((enforce redis key (nonnegative limit) window w).1) ≡ suc (count w))
  unfolding enforce redis_integer
  enforce-ok limit window w {state} lasts h =
      let (seconds, whole, some_time) = law.whole_seconds_pos window lasts in
      let script = lua_script redis key (redis.whole_seconds window) in
      elim (Result-cases ((redis.eval script w).0)) [
        | inr (e, failed) ↦ let refused : err _ ≡ ok state = rw failed at h in cc
        | inl (reply, evaluated) ↦
            let (result, ran, replied, after) = law.eval_runs script w reply evaluated in
            let (ttl, listed, grown) = lua_script-ok seconds w some_time (rw whole at ran) in
            let answer : (redis.eval script w).0
                ≡ ok (values (int64 (nonnegative (suc (count w))) ∷ int64 ttl ∷ [])) =
              evaluated ∙ ap ok replied ∙ ap (λ l. ok (values (map int64 l))) listed in
            let w1 = (redis.eval script w).1 in
            let made : ok (
                  state_of (nonnegative limit) (nonnegative (suc (count w))) ttl window
                    ((redis.now w1).0))
                ≡ ok state =
              rw answer at h in
            let same : state_of (nonnegative limit) (nonnegative (suc (count w))) ttl window
                  ((redis.now w1).0)
                ≡ state =
              cc in
            (
              rw (sym same) (state_of-IsCounted limit (count w) ttl window _),
              rw answer (law.now_same w1 ∙ after ∙ (rw whole grown)),
            )
      ]

  -- So many calls of `Allow`, and how many of them were allowed.
  unfoldable pub allowed_calls : Integer → Time → ℕ → Exec W ℕ
  allowed_calls limit window zero = pure 0
  allowed_calls limit window (suc n) = do
    allowed ← allow (some redis) key limit window
    rest ← allowed_calls limit window n
    pure (if allowed then suc rest else rest)

  allow-ok :
      (limit : ℕ) (window : Time) (w : W) {allowed : Bool}
      → second ≤ window
      → (allow (some redis) key (nonnegative limit) window w).0 ≡ ok allowed
      → (allowed ≡ ltb (count w) limit)
        × (count ((allow (some redis) key (nonnegative limit) window w).1) ≡ suc (count w))
  unfolding allow allow_with_state
  allow-ok limit window w {allowed} lasts h =
      elim (Result-cases ((enforce redis key (nonnegative limit) window w).0)) [
        | inr (e, failed) ↦ let refused : err _ ≡ ok allowed = rw failed at h in cc
        | inl (state, done) ↦
            let made : ok (RateLimitState.allowed state) ≡ ok allowed = rw done at h in
            let same : RateLimitState.allowed state ≡ allowed = cc in
            let (counted, grown) = enforce-ok limit window w lasts done in
            (sym same ∙ counted.within, rw done grown)
      ]

  -- Of any number of calls of `Allow` that succeed in one window, of a second or more, exactly those are allowed that
  -- the limit has left: as many as there are calls, and no more than the limit less the calls
  -- before. While the window lasts, Redis counts.
  pub allowed_calls-exact :
      (limit : ℕ) (window : Time) (n : ℕ) (w : W) {total : ℕ}
      → second ≤ window
      → (allowed_calls (nonnegative limit) window n w).0 ≡ ok total
      → total ≡ (if leb n (limit - count w) then n else limit - count w)
  unfolding allowed_calls
  allowed_calls-exact limit window zero w {total} lasts h =
      let made : ok 0 ≡ ok total = h in let none_left : total ≡ 0 = cc in ground arith
  allowed_calls-exact limit window (suc n) w {total} lasts h =
      elim (Result-cases ((allow (some redis) key (nonnegative limit) window w).0)) [
        | inr (e, failed) ↦ let refused : err _ ≡ ok total = rw failed at h in cc
        | inl (allowed, done) ↦
            let (decided, grown) = allow-ok limit window w lasts done in
            let w1 = (allow (some redis) key (nonnegative limit) window w).1 in
            elim (Result-cases ((allowed_calls (nonnegative limit) window n w1).0)) [
              | inr (e, failed) ↦ let refused : err _ ≡ ok total = rw (done, failed) at h in cc
              | inl (rest, ran) ↦
                  let made : ok (if allowed then suc rest else rest) ≡ ok total =
                    rw (done, ran) at h in
                  let sum : total ≡ (if ltb (count w) limit then suc rest else rest) =
                    rw (sym decided) cc in
                  let others = allowed_calls-exact limit window n w1 lasts ran in
                  let fewer : rest
                      ≡ (if leb n (limit - suc (count w)) then n else limit - suc (count w)) =
                    rw (sym grown) others in
                  ground arith
            ]
      ]
