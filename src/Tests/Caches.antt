-- ===== src/Tests/Caches.antt =====
-- The cache, before a Redis that holds one text.
use hate_sentry.Base.{lookup, insert, ℕ, true, ◌≡◌, refl, none, some, [], ◌∷◌, arith}
use hate_sentry.Base.Decimal.{nonnegative}
use hate_sentry.Float64.{float_zero}
use hate_sentry.Errors.{ok}
use hate_sentry.Models.{DetectionResult}
use hate_sentry.Cache.{Store, get_detection_result, get_json}
use hate_sentry.Cache.Levels.{
  CacheStats, Levels, Settings, get, set_l1_cache_with_ttl, get_second, generate_hash,
}
use hate_sentry.Cache.Counted.{
  IsBalanced, Reach, start, later, missing, answering, Reach-IsBalanced,
}
use hate_sentry.Cache.Answers.{get-promoted}

abbrev a_result : DetectionResult
a_result = record {
  id = 1;
  created_at = 2;
  updated_at = 2;
  request_id = "r";
  is_hate_speech = true;
  confidence = float_zero;
  categories = "[]";
  explanation = "";
  model = "m";
  processing_time = 3;
  prompt_used = "";
  raw_response = "";
}

-- The world is the clock.
abbrev store : Store ℕ
store = record {
  get = λ key w. (ok "{}", w);
  set = λ key value ttl w. (ok tt, w);
  del = λ key w. (ok tt, w);
  marshal = λ result. ok "{}";
  unmarshal = λ json. ok a_result;
  now = λ w. (w, w);
  sha256_hex = λ s. s;
}

abbrev settings : Settings
settings = record { l2_ttl = some (nonnegative 0); ttl = 60 }

abbrev no_stats : CacheStats
no_stats = record { l1_hits = 0; l1_misses = 0; l2_hits = 0; l2_misses = 0; evictions = 0 }

abbrev empty : Levels
empty = record { l1_cache = []; stats = no_stats }

get-promoted_example :
    ((get store settings "r" empty 5).0 ≡ record { found = true; written = none })
    × ((get store settings "r" ((get store settings "r" empty 5).1.0) 65).0
        ≡ record { found = true; written = some a_result })
unfolding get_detection_result get_json lookup
get-promoted_example =
    get-promoted store settings "r" a_result a_result "{}" (nonnegative 0) empty 5 65 refl refl refl
      refl refl (omega arith)

abbrev after_two : Levels
after_two = record {
  l1_cache = ("r", record { entry_data = a_result; expires_at = 65; accessed_at = 5 }) ∷ [];
  stats = record no_stats { l1_misses = 2; l2_hits = 1 };
}

-- Two calls, of which the first is at its second level when the other one begins.
Reach-IsBalanced_example :
    IsBalanced 1 (record no_stats { l1_misses = 2; l2_hits = 1 })
    × Reach store settings
        ((get store settings "r" after_two 5).1.0)
        1
        ((get store settings "r" after_two 5).1.1)
unfolding get_second get_detection_result get_json set_l1_cache_with_ttl generate_hash lookup insert
Reach-IsBalanced_example =
    Reach-IsBalanced store settings
      (later (later (later (start 5) missing) missing) (answering "r" 1 refl)) "r"
