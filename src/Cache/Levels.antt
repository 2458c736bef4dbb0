-- ===== src/Cache/Levels.antt =====
-- internal/cache/multilevel.go: `MultiLevelCache`.
--
-- A call is a step of the cache's own state and of the world. What `Get` writes to its `result`
-- comes back beside what it returns: `none` when it writes nothing. The definitions are what a call
-- does where no other one comes in between. `Get` takes the mutex of the counters once for the first
-- level and once for the second, so that others may come in between: the runs of Cache/Counted are
-- of these parts.
use hate_sentry.Base.{
  ℕ, suc, ◌+◌, String, Bool, true, false, not, ◌&&◌, Option, none, some, List, [], ◌∷◌, lookup,
  insert, ltb, if◌then◌else◌, str_eq,
}
use hate_sentry.Base.Decimal.{Integer, nonnegative, negative}
use hate_sentry.Errors.{Result, ok, err}
use hate_sentry.Models.{Time, DetectionResult, is_zero_time}
use hate_sentry.Auth.{first_runes}
use hate_sentry.Cache.{
  Store, get_detection_result, set_detection_result, invalidate_detection_result,
}

pub record CacheEntry : Type 0 where
  pub entry_data : DetectionResult
  pub expires_at : Time
  pub accessed_at : Time

pub record CacheStats : Type 0 where
  pub l1_hits : ℕ
  pub l1_misses : ℕ
  pub l2_hits : ℕ
  pub l2_misses : ℕ
  pub evictions : ℕ

-- `MultiLevelCache`: the map and the counters.
pub record Levels : Type 0 where
  pub l1_cache : List (String × CacheEntry)
  pub stats : CacheStats

-- What does not change: whether there is a second level, with its lifetime, and that of the first.
pub record Settings : Type 0 where
  pub l2_ttl : Option Integer
  pub ttl : Time

-- `l1Cache.Delete`.
unfoldable pub remove : String → List (String × CacheEntry) → List (String × CacheEntry)
remove key [] = []
remove key (entry ∷ rest) =
    let later = remove key rest in if str_eq entry.0 key then later else entry ∷ later

abbrev pub hit_first : CacheStats → CacheStats
hit_first s = record s { l1_hits = suc s.l1_hits }

abbrev pub miss_first : CacheStats → CacheStats
miss_first s = record s { l1_misses = suc s.l1_misses }

abbrev pub hit_second : CacheStats → CacheStats
hit_second s = record s { l2_hits = suc s.l2_hits }

abbrev pub miss_second : CacheStats → CacheStats
miss_second s = record s { l2_misses = suc s.l2_misses }

abbrev pub evicted : CacheStats → CacheStats
evicted s = record s { evictions = suc s.evictions }

-- `!ExpiresAt.IsZero() && now.After(ExpiresAt)`.
unfoldable pub is_expired : Time → CacheEntry → Bool
is_expired now entry = not (is_zero_time entry.expires_at) && ltb entry.expires_at now

-- What `Get` returns, without an error, and what it has written.
pub record Answer : Type 0 where
  pub found : Bool
  pub written : Option DetectionResult

abbrev kept : Result DetectionResult → Option DetectionResult
kept (ok r) = some r
kept (err e) = none

module _ {W : Type 0} (store : Store W) (settings : Settings) where
  -- `generateHash`.
  unfoldable pub generate_hash : String → String
  generate_hash key = first_runes 16 (store.sha256_hex key)

  abbrev read_back : Result String → Option DetectionResult
  read_back (err e) = none
  read_back (ok json) = kept (store.unmarshal json)

  -- `setL1CacheWithTTL`, and `setL1Cache` with the lifetime of the cache: the clock is read twice.
  unfoldable pub set_l1_cache_with_ttl : String → DetectionResult → Time → Levels → W → Levels × W
  set_l1_cache_with_ttl hash entry_data ttl levels w =
      let (created, w1) = store.now w in
      let (accessed, w2) = store.now w1 in
      (
        record levels {
          l1_cache =
              insert hash
                (record {
                  entry_data = entry_data;
                  expires_at = created + ttl;
                  accessed_at = accessed;
                })
                levels.l1_cache;
        },
        w2,
      )

  abbrev second_found : String → Levels → Result DetectionResult → W → Answer × (Levels × W)
  second_found hash levels (ok cached) w =
      let (promoted, w') = set_l1_cache_with_ttl hash cached settings.ttl levels w in
      (
        record { found = true; written = none },
        (record promoted { stats = hit_second promoted.stats }, w'),
      )
  second_found hash levels (err e) w = (
    record { found = false; written = none },
    (record levels { stats = miss_second levels.stats }, w),
  )

  -- The second level.
  unfoldable pub get_second : String → Option Integer → Levels → W → Answer × (Levels × W)
  unfolding generate_hash set_l1_cache_with_ttl
  get_second request_id none levels w = (
    record { found = false; written = none },
    (record levels { stats = miss_second levels.stats }, w),
  )
  get_second request_id (some l2) levels w =
      let (cached, w') = get_detection_result store request_id w in
      second_found (generate_hash request_id) levels cached w'

  -- A miss of the first level is counted.
  abbrev pub missed : Levels → Levels
  missed levels = record levels { stats = miss_first levels.stats }

  -- After a miss of the first level.
  unfoldable pub get_missed : String → Levels → W → Answer × (Levels × W)
  unfolding get_second
  get_missed request_id levels w = get_second request_id settings.l2_ttl (missed levels) w

  -- A hit of the first level, which writes the result.
  unfoldable pub get_hit : String → CacheEntry → Levels → W → Answer × (Levels × W)
  unfolding generate_hash
  get_hit request_id entry levels w =
      let (now, w') = store.now w in
      (
        record { found = true; written = read_back (store.marshal entry.entry_data) },
        (
          record {
            l1_cache =
                insert (generate_hash request_id) (record entry { accessed_at = now })
                  levels.l1_cache;
            stats = hit_first levels.stats;
          },
          w',
        ),
      )

  -- The clock is read only for an entry that has a time.
  abbrev clock : Bool → W → Time × W
  clock true w = (0, w)
  clock false w = store.now w

  -- An entry that has expired is removed.
  abbrev pub dropped : String → Levels → Levels
  dropped request_id levels = record {
    l1_cache = remove (generate_hash request_id) levels.l1_cache;
    stats = evicted levels.stats;
  }

  -- What `Get` does with an entry of the first level.
  abbrev pub get_checked : String → CacheEntry → Bool → Levels → W → Answer × (Levels × W)
  get_checked request_id entry true levels w = get_missed request_id (dropped request_id levels) w
  get_checked request_id entry false levels w = get_hit request_id entry levels w

  abbrev pub get_entry : String → Option CacheEntry → Levels → W → Answer × (Levels × W)
  get_entry request_id none levels w = get_missed request_id levels w
  get_entry request_id (some entry) levels w =
      let (now, w') = clock (is_zero_time entry.expires_at) w in
      get_checked request_id entry (is_expired now entry) levels w'

  -- `Get`.
  unfoldable pub get : String → Levels → W → Answer × (Levels × W)
  unfolding generate_hash get_missed get_hit is_expired remove
  get request_id levels w =
      get_entry request_id (lookup (generate_hash request_id) levels.l1_cache) levels w

  abbrev chosen_ttl : Option Integer → Time
  chosen_ttl none = settings.ttl
  chosen_ttl (some (nonnegative n)) = if ltb 0 n then n else settings.ttl
  chosen_ttl (some (negative n)) = settings.ttl

  abbrev set_second : Option Integer → DetectionResult → W → Result (Unit {0}) × W
  set_second none result w = (ok tt, w)
  set_second (some l2) result w = set_detection_result store l2 result w

  -- `Set`, with the lifetime that it may be given.
  unfoldable pub set :
      String → DetectionResult → Option Integer → Levels → W → Result (Unit {0}) × (Levels × W)
  unfolding generate_hash set_l1_cache_with_ttl
  set request_id result ttl levels w =
      let (stored, w1) =
        set_l1_cache_with_ttl (generate_hash request_id) result (chosen_ttl ttl) levels w in
      let (r, w2) = set_second settings.l2_ttl result w1 in (r, (stored, w2))

  abbrev invalidate_second : Option Integer → String → W → Result (Unit {0}) × W
  invalidate_second none request_id w = (ok tt, w)
  invalidate_second (some l2) request_id w = invalidate_detection_result store request_id w

  -- `Invalidate`.
  unfoldable pub invalidate : String → Levels → W → Result (Unit {0}) × (Levels × W)
  unfolding generate_hash remove
  invalidate request_id levels w =
      let (r, w') = invalidate_second settings.l2_ttl request_id w in
      (r, (record levels { l1_cache = remove (generate_hash request_id) levels.l1_cache }, w'))

  -- One round of `L1Evictor`, over the entries of the map.
  unfoldable pub evict_expired : Time → List (String × CacheEntry) → Levels → Levels
  unfolding is_expired remove
  evict_expired now [] levels = levels
  evict_expired now (entry ∷ rest) levels = evict_expired now rest (
      if is_expired now entry.1
      then record { l1_cache = remove entry.0 levels.l1_cache; stats = evicted levels.stats }
      else levels)

  -- `ResetStats`.
  abbrev pub reset_stats : Levels → Levels
  reset_stats levels = record levels {
    stats = record { l1_hits = 0; l1_misses = 0; l2_hits = 0; l2_misses = 0; evictions = 0 };
  }
