-- ===== src/Cache.antt =====
-- internal/cache/detection_cache.go, multilevel.go and redis.go: cached results of detections.
--
-- `DetectionCache` is the second level, in Redis; `MultiLevelCache` puts a map in memory before it.
-- The map is an association list. The mutex of the counters makes each update one step; counters
-- stay below their limits.
pub mod Levels
pub mod Counted
pub mod Answers
use Prim.Native.String.{◌++◌}
use hate_sentry.Base.{
  ℕ, suc, ◌+◌, String, Bool, true, false, not, ◌&&◌, Option, none, some, List, [], ◌∷◌, lookup,
  insert, ltb, if◌then◌else◌, str_eq,
}
use hate_sentry.Base.Decimal.{Integer, nonnegative, negative}
use hate_sentry.Errors.{
  Error, Result, ok, err, raised, internal, with_details, error_text, wrapped_cache_error,
}
use hate_sentry.Exec.{Exec, lift, continue, ◌>>=◌}
use hate_sentry.Models.{Time, DetectionResult}
use hate_sentry.Database.{non_nil}

pub record Store (W : Type 0) : Type 0 where
  -- `RedisClient.Get`, `Set` and `Del`; a key that is not there is an error.
  pub get : String → Exec W String
  pub set : String → String → ℕ → Exec W (Unit {0})
  pub del : String → Exec W (Unit {0})
  -- `json.Marshal` and `json.Unmarshal` of a result.
  pub marshal : DetectionResult → Result String
  pub unmarshal : String → Result DetectionResult
  -- `time.Now`.
  pub now : W → Time × W
  -- `hex.EncodeToString(sha256.Sum256(…))`.
  pub sha256_hex : String → String

abbrev hour : ℕ
hour = 3600000000000

-- The lifetime that `SetDetectionResult` gives.
unfoldable pub result_ttl : Integer → ℕ
result_ttl (nonnegative n) = if ltb 0 n then n else hour
result_ttl (negative n) = hour

abbrev result_key : String → String
result_key request_id = "detection:result:" ++ request_id

abbrev marshalled : Result String → Result String
marshalled (ok json) = ok json
marshalled (err e) = err (raised (with_details (internal "Failed to marshal JSON") (error_text e)))

abbrev cached : Result String → Result String
cached (ok json) = ok json
cached (err e) =
    err (non_nil e (wrapped_cache_error (some e) "Failed to get JSON value from Redis"))

module _ {W : Type 0} (store : Store W) where
  -- `GetJSON`.
  unfoldable pub get_json : String → Exec W DetectionResult
  unfolding wrapped_cache_error
  get_json key w =
      let (found, w') = store.get key w in
      ((do val ← lift (cached found); lift (store.unmarshal val)) w')

  -- `SetJSON`.
  unfoldable pub set_json : String → DetectionResult → ℕ → Exec W (Unit {0})
  set_json key value expiration = do
    json ← lift (marshalled (store.marshal value))
    store.set key json expiration

  -- `GetDetectionResult`.
  unfoldable pub get_detection_result : String → Exec W DetectionResult
  unfolding get_json
  get_detection_result request_id = get_json (result_key request_id)

  -- `SetDetectionResult` of a cache with this lifetime.
  unfoldable pub set_detection_result : Integer → DetectionResult → Exec W (Unit {0})
  unfolding set_json result_ttl
  set_detection_result default_ttl result =
      set_json (result_key result.request_id) result (result_ttl default_ttl)

  -- `InvalidateDetectionResult`.
  unfoldable pub invalidate_detection_result : String → Exec W (Unit {0})
  invalidate_detection_result request_id = store.del (result_key request_id)
