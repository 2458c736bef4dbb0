-- ===== src/Cache/Answers.antt =====
-- internal/cache/multilevel.go: what `Get` answers after `Set`, and after a hit of the second level.
use hate_sentry.Base.{
  ◌+◌, ◌≤◌, String, true, false, ◌≡◌, inl, inr, refl, ◌∙◌, none, some, List, lookup, insert,
  lookup-insert, ltb, Bool-cases, arith, str_eq_refl,
}
use hate_sentry.Base.Decimal.{Integer}
use hate_sentry.Errors.{ok}
use hate_sentry.Models.{DetectionResult, is_zero_time}
use hate_sentry.Cache.{Store, get_detection_result}
use hate_sentry.Cache.Levels.{
  CacheEntry, Levels, Settings, is_expired, generate_hash, get_second, get_missed, get_hit, get,
  set, set_l1_cache_with_ttl,
}

module _ {W : Type 0} (store : Store W) (settings : Settings) where
  -- A live entry of the first level is what `Get` answers with, and what it writes, as JSON reads
  -- it back.
  get-live :
      (request_id : String) (levels : Levels) (w : W) (entry : CacheEntry) (json : String)
      (result : DetectionResult)
      → lookup (generate_hash store settings request_id) levels.l1_cache ≡ some entry
      → (store.now w).0 ≤ entry.expires_at
      → store.marshal entry.entry_data ≡ ok json
      → store.unmarshal json ≡ ok result
      → (get store settings request_id levels w).0 ≡ record { found = true; written = some result }
  unfolding get get_hit is_expired
  get-live request_id levels w entry json result here live packed read =
      elim (Bool-cases (is_zero_time entry.expires_at)) [
        | inl untimed ↦ rw (here, untimed, packed, read) refl
        | inr timed ↦
            let kept : ltb entry.expires_at ((store.now w).0) ≡ false = ground arith in
            rw (here, timed, kept, packed, read) refl
      ]

  -- What `Get` answers after `Set` or after it was promoted, as long as its lifetime lasts.
  lookup-inserted :
      (hash : String) (entry : CacheEntry) (table : List (String × CacheEntry))
      → lookup hash (insert hash entry table) ≡ some entry
  lookup-inserted hash entry table =
      lookup-insert hash hash entry table ∙ (rw (str_eq_refl hash) refl)

  -- After a `Set`, whatever it returns, a `Get` of the same request that comes before the lifetime
  -- has run out finds the result, and writes it as JSON reads it back.
  pub get-set :
      (request_id : String) (result copy : DetectionResult) (json : String) (levels : Levels)
      (w : W) (later : W)
      → store.marshal result ≡ ok json
      → store.unmarshal json ≡ ok copy
      → (store.now later).0 ≤ (store.now w).0 + settings.ttl
      → (get store settings request_id
          ((set store settings request_id result none levels w).1.0)
          later).0
        ≡ record { found = true; written = some copy }
  unfolding set set_l1_cache_with_ttl
  get-set request_id result copy json levels w later packed read early =
      get-live request_id _ later _ json copy (lookup-inserted _ _ levels.l1_cache) early packed
        read

  -- A `Get` that only the second level answers, of an entry that the first one does not have,
  -- finds the result but writes nothing; the next one that comes before the lifetime has run out
  -- writes it, as JSON reads it back.
  pub get-promoted :
      (request_id : String) (result copy : DetectionResult) (json : String) (l2 : Integer)
      (levels : Levels) (w later : W)
      → lookup (generate_hash store settings request_id) levels.l1_cache ≡ none
      → settings.l2_ttl ≡ some l2
      → (get_detection_result store request_id w).0 ≡ ok result
      → store.marshal result ≡ ok json
      → store.unmarshal json ≡ ok copy
      → (store.now later).0
        ≤ (store.now ((get_detection_result store request_id w).1)).0 + settings.ttl
      → ((get store settings request_id levels w).0 ≡ record { found = true; written = none })
        × ((get store settings request_id ((get store settings request_id levels w).1.0) later).0
            ≡ record { found = true; written = some copy })
  unfolding get get_missed get_second set_l1_cache_with_ttl
  get-promoted request_id result copy json l2 levels w later absent two cached packed read early = (
    rw (absent, two, cached) refl,
    get-live request_id _ later promoted json copy here early packed read,
  )
    where
      w1 : W
      w1 = (get_detection_result store request_id w).1

      promoted : CacheEntry
      promoted = record {
        entry_data = result;
        expires_at = (store.now w1).0 + settings.ttl;
        accessed_at = (store.now ((store.now w1).1)).0;
      }

      here :
          lookup
            (generate_hash store settings request_id)
            ((get store settings request_id levels w).1.0.l1_cache)
          ≡ some promoted
      here = rw (absent, two, cached) (lookup-inserted _ _ levels.l1_cache)
