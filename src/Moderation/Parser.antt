-- ===== src/Moderation/Parser.antt =====
-- internal/moderation/parser.go: the strict JSON answer of a provider becomes a suggestion.
--
-- Parameters: `to_lower` is `strings.ToLower`, `quote` the `%q` of `fmt`, and a `Decoder` stands
-- for `encoding/json` on this struct with `DisallowUnknownFields`.
pub mod Labels
pub mod Suggestion
use Prim.Native.String.{◌++◌ as concat}
use hate_sentry.Base.{
  String, Bool, not, List, [], ◌∷◌, ◌++◌, Option, none, some, contains, str_eq, if◌then◌else◌,
}
use hate_sentry.Base.Text.{trim_space}
use hate_sentry.Float64.{Float64, float_lt, float_zero, float_one}
use hate_sentry.Errors.{Result, ok, err, plain_error, reject_if, error_text, ◌>>◌, ◌>>=◌}
use hate_sentry.Moderation.Types.{ProviderSuggestion, is_supported_label}

-- A missing or null `risk_score` or `reason` is a nil pointer; missing labels are an empty slice.
pub record ProviderSuggestionJson : Type 0 where
  pub risk_score : Option Float64
  pub labels : List String
  pub reason : Option String

pub record Decoder : Type 0 where
  -- The first `Decode` on a reader of the text.
  pub decode : String → Result ProviderSuggestionJson
  -- Whether the second `Decode` then returns `io.EOF`.
  pub at_end : String → Bool

-- A label as it is compared and stored.
abbrev pub clean : (String → String) → String → String
clean to_lower label = to_lower (trim_space label)

module _ (to_lower quote : String → String) where
  -- The loop of `normalizeLabels`, with its `seen` map and its output.
  unfoldable pub normalize_loop : List String → List String → List String → Result (List String)
  normalize_loop seen normalized [] = ok normalized
  normalize_loop seen normalized (label ∷ labels) = do
    reject_if (str_eq (clean to_lower label) "")
        (plain_error "labels must not contain empty values")
    reject_if (not (is_supported_label (clean to_lower label)))
        (plain_error (concat "unsupported label " (quote (clean to_lower label))))
    normalize_loop
        (if contains (clean to_lower label) seen then seen else clean to_lower label ∷ seen)
        (if contains (clean to_lower label) seen
          then normalized
          else normalized ++ clean to_lower label ∷ [])
        labels

  unfoldable pub normalize_labels : List String → Result (List String)
  unfolding normalize_loop
  normalize_labels [] = err (plain_error "labels must not be empty")
  normalize_labels (label ∷ labels) = normalize_loop [] [] (label ∷ labels)

  -- The tests behind the two nil checks.
  abbrev suggestion_from : String → List String → Float64 → String → Result ProviderSuggestion
  suggestion_from raw raw_labels score reason = do
    labels ← normalize_labels raw_labels
    reject_if (float_lt score float_zero) (plain_error "risk_score must be between 0 and 1")
    reject_if (float_lt float_one score) (plain_error "risk_score must be between 0 and 1")
    reject_if (str_eq (trim_space reason) "") (plain_error "reason is required")
    ok (record {
      risk_score = score;
      labels = labels;
      reason = trim_space reason;
      raw_output = raw;
    })

  abbrev check_fields :
      String → List String → Option Float64 → Option String → Result ProviderSuggestion
  check_fields raw labels none reason = err (plain_error "risk_score is required")
  check_fields raw labels (some score) none = err (plain_error "reason is required")
  check_fields raw labels (some score) (some reason) = suggestion_from raw labels score reason

  -- `%w` keeps the decoder's error as the cause.
  abbrev decoded : Result ProviderSuggestionJson → Result ProviderSuggestionJson
  decoded (ok parsed) = ok parsed
  decoded (err e) = err (record (plain_error (concat "parse provider output: " (error_text e))) {
    causes = e.own ∷ e.causes;
  })

  unfoldable pub parse_provider_suggestion : Decoder → String → Result ProviderSuggestion
  parse_provider_suggestion d raw = do
    reject_if (str_eq (trim_space raw) "") (plain_error "provider output is required")
    parsed ← decoded (d.decode raw)
    reject_if (not (d.at_end raw)) (plain_error "provider output must contain a single JSON object")
    check_fields raw parsed.labels parsed.risk_score parsed.reason
