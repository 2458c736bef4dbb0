-- ===== src/Moderation/Parser/Suggestion.antt =====
-- What `ParseProviderSuggestion` of internal/moderation/parser.go accepts, and that the policy can
-- decide on it.
use hate_sentry.Base.{
  ◌≡◌, ◌≢◌, inl, inr, refl, String, true, false, List, [], map, contains, arith, eq_iff, Option,
  some, none, Distinct,
}
use hate_sentry.Base.Text.{trim_space, trim_space_idem}
use hate_sentry.Base.Decimal.{nonnegative, negative}
use hate_sentry.Float64.{Float64, nan, infinite, finite, float_lt, float_one, float_zero, is_nan}
use hate_sentry.Errors.{ok, Result-cases}
use hate_sentry.Moderation.Types.{ProviderSuggestion, DecisionResult}
use hate_sentry.Moderation.Policy.{Policy, valid_score, decide}
use hate_sentry.Moderation.Policy.Thresholds.{IsValidPolicy, validate_iff, decide-decided, decided}
use hate_sentry.Moderation.Parser.{
  clean, Decoder, ProviderSuggestionJson, parse_provider_suggestion, normalize_labels, check_fields,
}
use hate_sentry.Moderation.Parser.Labels.{Supported, normalize_labels_sound}

-- A JSON number is never NaN.
abbrev pub DecodesNumbers : Decoder → Type 0
DecodesNumbers d =
    (raw : String) (parsed : ProviderSuggestionJson) (score : Float64)
    → d.decode raw ≡ ok parsed
    → parsed.risk_score ≡ some score
    → is_nan score ≡ false

in_range :
    (score : Float64)
    → is_nan score ≡ false
    → float_lt score float_zero ≡ false
    → float_lt float_one score ≡ false
    → valid_score score ≡ true
unfolding valid_score
in_range nan n l h = cc
in_range (infinite true) n l h = cc
in_range (infinite false) n l h = cc
in_range (finite (nonnegative k)) n l h = ground arith
in_range (finite (negative k)) n l h = cc

module _ (to_lower quote : String → String) (d : Decoder) where
  -- What an accepted text decodes to.
  parse_parts :
      (raw : String) (s : ProviderSuggestion)
      → parse_provider_suggestion to_lower quote d raw ≡ ok s
      → (parsed : ProviderSuggestionJson) × (d.decode raw ≡ ok parsed)
        × (d.at_end raw ≡ true)
        × (check_fields to_lower quote raw parsed.labels parsed.risk_score parsed.reason ≡ ok s)
  unfolding parse_provider_suggestion
  parse_parts raw s h = elim (Result-cases (d.decode raw)) [
    | inl (parsed, e) ↦ (parsed, e, ground arith, ground arith)
    | inr (e, failed) ↦ ground arith
  ]

  -- What the checks behind it have established.
  fields_parts :
      (raw : String) (ls : List String) (ms : Option Float64) (mr : Option String)
      (s : ProviderSuggestion)
      → check_fields to_lower quote raw ls ms mr ≡ ok s
      → (ms ≡ some s.risk_score)
        × (s.raw_output ≡ raw)
        × (normalize_labels to_lower quote ls ≡ ok s.labels)
        × (float_lt s.risk_score float_zero ≡ false)
        × (float_lt float_one s.risk_score ≡ false)
        × ((reason : String) × (mr ≡ some reason)
            × (s.reason ≡ trim_space reason)
            × (s.reason ≢ ""))
  fields_parts raw ls none mr s h = cc
  fields_parts raw ls (some score) none s h = cc
  fields_parts raw ls (some score) (some reason) s h =
      elim (Result-cases (normalize_labels to_lower quote ls)) [
        | inl (labels, e) ↦ (
          ground arith,
          ground arith,
          ground arith,
          ground arith,
          ground arith,
          (reason, refl, ground arith, ground (arith, eq_iff (trim_space reason) "")),
        )
        | inr (e, failed) ↦ ground arith
      ]

  -- With a decoder that never yields NaN, an accepted text decodes to one object; its suggestion
  -- keeps the raw text and the score, has a score from 0 to 1, has at least one label, only labels
  -- of the vocabulary, each once, and exactly those decoded, trimmed and in lower case, and has a
  -- reason that is trimmed and not blank.
  pub parse_provider_suggestion_sound :
      DecodesNumbers d
      → (raw : String) (s : ProviderSuggestion)
      → parse_provider_suggestion to_lower quote d raw ≡ ok s
      → (s.raw_output ≡ raw)
        × (d.at_end raw ≡ true)
        × (valid_score s.risk_score ≡ true)
        × ((s.labels ≢ []) × Supported s.labels × Distinct s.labels)
        × ((s.reason ≢ "") × (trim_space s.reason ≡ s.reason))
        × ((parsed : ProviderSuggestionJson) × (d.decode raw ≡ ok parsed)
            × (parsed.risk_score ≡ some s.risk_score)
            × ((x : String)
                → contains x s.labels ≡ contains x (map (clean to_lower) parsed.labels)))
  parse_provider_suggestion_sound numbers raw s h =
      let (parsed, e, single, fields) = parse_parts raw s h in
      let (score, kept, labels, low, high, reason) =
        fields_parts raw parsed.labels parsed.risk_score parsed.reason s fields in
      let (some_label, supported, distinct, same) =
        normalize_labels_sound to_lower quote parsed.labels s.labels labels in
      (
        kept,
        single,
        in_range s.risk_score (numbers raw parsed s.risk_score e score) low high,
        (some_label, supported, distinct),
        (reason.3, rw reason.2 (trim_space_idem reason.0)),
        (parsed, e, score, same),
      )

  -- With a decoder that never yields NaN: whatever text the provider's answer is, once it is
  -- accepted no valid policy fails on it, and the decision has the suggestion's labels.
  pub decide-parse_provider_suggestion :
      DecodesNumbers d
      → (raw : String) (s : ProviderSuggestion) (p : Policy)
      → parse_provider_suggestion to_lower quote d raw ≡ ok s
      → IsValidPolicy p
      → (r : DecisionResult) × (decide p s ≡ ok r) × (r.labels ≡ s.labels)
  decide-parse_provider_suggestion numbers raw s p h v =
      let sound = parse_provider_suggestion_sound numbers raw s h in
      (decided p s, decide-decided p s ((validate_iff p).1 v) sound.2, refl)
