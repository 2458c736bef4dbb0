-- ===== src/Cache/Counted.antt =====
-- internal/cache/multilevel.go: what the counters of the cache say.
use hate_sentry.Base.{
  ℕ, suc, ◌+◌, String, Bool, true, false, ◌≡◌, inl, inr, refl, Option, none, some, List, [], ◌∷◌,
  lookup, Bool-cases, Option-cases, arith,
}
use hate_sentry.Base.Decimal.{Integer}
use hate_sentry.Errors.{Result-cases}
use hate_sentry.Models.{Time, DetectionResult}
use hate_sentry.Cache.{Store, get_detection_result}
use hate_sentry.Cache.Levels.{
  CacheEntry, CacheStats, Levels, Settings, is_expired, generate_hash, get_second, get_missed,
  get_hit, missed, dropped, get_checked, get_entry, get, set, invalidate, evict_expired,
  reset_stats,
}

-- Every miss of the first level was counted once for the second, but for those of the `Get`s that
-- have not come to the second one yet.
abbrev pub IsBalanced : ℕ → CacheStats → Type 0
IsBalanced pending s = s.l2_hits + s.l2_misses + pending ≡ s.l1_misses

module _ {W : Type 0} (store : Store W) (settings : Settings) where
  -- What one of the users of the cache or its evictor does without another in between, while
  -- `pending` calls of `Get` have counted a miss of the first level and not yet a hit or a miss of
  -- the second. What a step does to the map and to Redis beside its count leaves the counters of the
  -- levels alone.
  pub data Step (levels : Levels) (pending : ℕ) (w : W) : Levels → ℕ → W → Type 0 where
    -- A `Get` finds an entry in the first level,
    hitting :
        (request_id : String) (entry : CacheEntry)
        → Step levels pending w
            ((get_hit store settings request_id entry levels w).1.0)
            pending
            ((get_hit store settings request_id entry levels w).1.1)
    -- or removes one that has expired,
    dropping :
        (request_id : String)
        → Step levels pending w (dropped store settings request_id levels) pending w
    -- and finds none,
    missing : Step levels pending w (missed store settings levels) (suc pending) w
    -- and then it asks the second level.
    answering :
        (request_id : String) (others : ℕ)
        → pending ≡ suc others
        → Step levels pending w
            ((get_second store settings request_id settings.l2_ttl levels w).1.0)
            others
            ((get_second store settings request_id settings.l2_ttl levels w).1.1)
    setting :
        (request_id : String) (result : DetectionResult) (ttl : Option Integer)
        → Step levels pending w
            ((set store settings request_id result ttl levels w).1.0)
            pending
            ((set store settings request_id result ttl levels w).1.1)
    invalidating :
        (request_id : String)
        → Step levels pending w
            ((invalidate store settings request_id levels w).1.0)
            pending
            ((invalidate store settings request_id levels w).1.1)
    evicting :
        (now : Time) (order : List (String × CacheEntry))
        → Step levels pending w (evict_expired store settings now order levels) pending w
    -- A reset while no `Get` is between its two counts.
    resetting : pending ≡ 0 → Step levels pending w (reset_stats store settings levels) 0 w
    -- The clock goes on, and others use Redis.
    elsewhere : (v : W) → Step levels pending w levels pending v

  -- A run from an empty cache.
  pub data Reach : Levels → ℕ → W → Type 0 where
    start :
        (w : W)
        → Reach
            (reset_stats store settings (record {
              l1_cache = [];
              stats = record {
                l1_hits = 0;
                l1_misses = 0;
                l2_hits = 0;
                l2_misses = 0;
                evictions = 0;
              };
            }))
            0
            w
    later :
        {before after : Levels} {p q : ℕ} {v w : W}
        → Reach before p v
        → Step before p v after q w
        → Reach after q w

  second-IsBalanced :
      (request_id : String) (others : ℕ) (levels : Levels) (w : W)
      → IsBalanced (suc others) levels.stats
      → IsBalanced others
          ((get_second store settings request_id settings.l2_ttl levels w).1.0.stats)
  unfolding get_second
  second-IsBalanced request_id others levels w h = elim (Option-cases settings.l2_ttl) [
    | inl alone ↦ rw alone (omega arith)
    | inr (l2, two) ↦ elim (Result-cases ((get_detection_result store request_id w).0)) [
      | inl (cached, found) ↦ rw (two, found) (omega arith)
      | inr (e, failed) ↦ rw (two, failed) (omega arith)
    ]
  ]

  evict-IsBalanced :
      (now : Time) (order : List (String × CacheEntry)) (pending : ℕ) (levels : Levels)
      → IsBalanced pending levels.stats
      → IsBalanced pending ((evict_expired store settings now order levels).stats)
  unfolding evict_expired
  evict-IsBalanced now [] pending levels h = h
  evict-IsBalanced now (entry ∷ rest) pending levels h =
      elim (Bool-cases (is_expired now entry.1)) [
        | inl over ↦ rw (evict_expired, over) (evict-IsBalanced now rest pending _ h)
        | inr alive ↦ rw (evict_expired, alive) (evict-IsBalanced now rest pending levels h)
      ]

  Step-IsBalanced :
      {before : Levels} {p : ℕ} {v : W} {after : Levels} {q : ℕ} {w : W}
      → Step before p v after q w
      → IsBalanced p before.stats
      → IsBalanced q after.stats
  unfolding get_hit set invalidate
  Step-IsBalanced (hitting request_id entry) h = h
  Step-IsBalanced (dropping request_id) h = h
  Step-IsBalanced missing h = omega arith
  Step-IsBalanced {before} {p} {v} (answering request_id others e) h =
      second-IsBalanced request_id others before v (rw e at h)
  Step-IsBalanced (setting request_id result ttl) h = h
  Step-IsBalanced (invalidating request_id) h = h
  Step-IsBalanced {before} {p} (evicting now order) h = evict-IsBalanced now order p before h
  Step-IsBalanced (resetting e) h = refl
  Step-IsBalanced (elsewhere v) h = h

  run-IsBalanced :
      {levels : Levels} {pending : ℕ} {w : W}
      → Reach levels pending w
      → IsBalanced pending levels.stats
  run-IsBalanced (start w) = refl
  run-IsBalanced (later before step) = Step-IsBalanced step (run-IsBalanced before)

  get_missed-Reach :
      (request_id : String) {levels : Levels} {pending : ℕ} {w : W}
      → Reach levels pending w
      → Reach
          ((get_missed store settings request_id levels w).1.0)
          pending
          ((get_missed store settings request_id levels w).1.1)
  unfolding get_missed
  get_missed-Reach request_id {levels} {pending} r =
      later (later r missing) (answering request_id pending refl)

  get_checked-Reach :
      (request_id : String) (entry : CacheEntry) (expired : Bool) {levels : Levels} {pending : ℕ}
      {w : W}
      → Reach levels pending w
      → Reach
          ((get_checked store settings request_id entry expired levels w).1.0)
          pending
          ((get_checked store settings request_id entry expired levels w).1.1)
  get_checked-Reach request_id entry true r =
      get_missed-Reach request_id (later r (dropping request_id))
  get_checked-Reach request_id entry false r = later r (hitting request_id entry)

  get_entry-Reach :
      (request_id : String) (entry : Option CacheEntry) {levels : Levels} {pending : ℕ} {w : W}
      → Reach levels pending w
      → Reach
          ((get_entry store settings request_id entry levels w).1.0)
          pending
          ((get_entry store settings request_id entry levels w).1.1)
  get_entry-Reach request_id none r = get_missed-Reach request_id r
  get_entry-Reach request_id (some entry) r =
      get_checked-Reach request_id entry _ (later r (elsewhere _))

  -- In any run of the users of the cache and of its evictor from an empty cache, in which a `Get`
  -- may be interrupted between the counts of its two levels, and in which the counters are reset
  -- only while none is: the misses of the first level are the hits and the misses of the second
  -- together with the `Get`s that are between their counts; and a whole `Get` is such a run.
  pub Reach-IsBalanced :
      {levels : Levels} {pending : ℕ} {w : W}
      → Reach levels pending w
      → (request_id : String)
      → IsBalanced pending levels.stats
        × Reach
            ((get store settings request_id levels w).1.0)
            pending
            ((get store settings request_id levels w).1.1)
  unfolding get
  Reach-IsBalanced {levels} r request_id = (
    run-IsBalanced r,
    get_entry-Reach request_id (lookup (generate_hash store settings request_id) levels.l1_cache) r,
  )
