-- ===== src/Tests/Policies.antt =====
-- Policies, sets of policies, and the provider's output at concrete values.
use text.Mathlib.TextLemmas.{cons-ne-nil}
use mathlib.Core.List.{Permᴰ}
use hate_sentry.Base.{
  ℕ, ◌≤◌, ◌<◌, ◌+◌, ◌^◌, ◌≡◌, ◌≢◌, ◌↔◌, ◌⊎◌, inl, inr, refl, String, true, false, List, [], ◌∷◌,
  some, map, contains, leb→le, ltb→lt, All, Distinct, insert, lookup,
}
use hate_sentry.Base.Text.{trim_space, is_space}
use hate_sentry.Float64.{units}
use hate_sentry.Errors.{ok}
use hate_sentry.Moderation.Types.{
  ProviderSuggestion, DecisionResult, decision_block, decision_review, decision_allow,
  is_supported_label,
}
use hate_sentry.Moderation.Policy.{Policy, validate, decide, valid_score}
use hate_sentry.Moderation.Policy.Thresholds.{score_of, IsValidPolicy, decide_exact}
use hate_sentry.Moderation.PolicySet.{
  PolicySet, PolicyConfig, new_policy_set, policy_for_version, list_policies, policy_config,
}
use hate_sentry.Moderation.PolicySet.Register.{
  versions, new_policy_set-ok_iff, policy_for_version-registered, policy_for_version-valid,
}
use hate_sentry.Moderation.PolicySet.Ordered.{list_policies-stable, Ascending}
use hate_sentry.Moderation.Parser.{
  Decoder, ProviderSuggestionJson, clean, normalize_labels, parse_provider_suggestion,
}
use hate_sentry.Moderation.Parser.Labels.{Supported}
use hate_sentry.Moderation.Parser.Suggestion.{DecodesNumbers, parse_provider_suggestion_sound}

-- Review from one half on, block from three quarters on.
abbrev half : ℕ
half = 2 ^ 1073

abbrev three_quarters : ℕ
three_quarters = 2 ^ 1073 + 2 ^ 1072

abbrev pub strict : Policy
strict = record {
  version = "strict";
  review_threshold = score_of half;
  block_threshold = score_of three_quarters;
}

abbrev relaxed : Policy
relaxed = record {
  version = "relaxed";
  review_threshold = score_of three_quarters;
  block_threshold = score_of (2 ^ 1074);
}

pub strict-valid : IsValidPolicy strict
unfolding units trim_space is_space
strict-valid = record {
  review = half;
  block = three_quarters;
  named = cons-ne-nil _ _;
  review_eq = refl;
  block_eq = refl;
  ordered = ltb→lt half three_quarters refl;
  bounded = leb→le three_quarters units refl;
}

abbrev mild : ProviderSuggestion
mild = record {
  risk_score = score_of 7;
  labels = "spam" ∷ [];
  reason = "an offer";
  raw_output = "{}";
}

abbrev doubtful : ProviderSuggestion
doubtful = record {
  risk_score = score_of half;
  labels = "hate" ∷ [];
  reason = "a slur";
  raw_output = "{}";
}

decide_exact_example :
    (d : DecisionResult) × (decide strict doubtful ≡ ok d)
    × ((d.decision ≡ decision_block) ↔ (three_quarters ≤ half))
    × ((d.decision ≡ decision_review) ↔ ((half ≤ half) × (half < three_quarters)))
    × ((d.decision ≡ decision_allow) ↔ (half < half))
    × (d.risk_score ≡ score_of half)
    × (d.labels ≡ "hate" ∷ [])
    × (d.reason ≡ "a slur")
    × (d.policy_version ≡ "strict")
unfolding units strict-valid
decide_exact_example = decide_exact strict doubtful half strict-valid refl (leb→le half units refl)

abbrev pub as_is : String → String
as_is s = s

abbrev both : PolicySet
both = record {
  default_policy = strict;
  policies = insert "relaxed" relaxed (("strict", strict) ∷ []);
}

both_eq : new_policy_set as_is strict (relaxed ∷ []) ≡ ok both
unfolding new_policy_set validate valid_score trim_space units is_space lookup insert
both_eq = refl

new_policy_set-ok_iff_example :
    ((set : PolicySet) × (new_policy_set as_is strict (relaxed ∷ []) ≡ ok set)) ↔ (
      All (λ p. validate p ≡ ok tt) (strict ∷ relaxed ∷ [])
      × Distinct (versions (strict ∷ relaxed ∷ [])))
new_policy_set-ok_iff_example = new_policy_set-ok_iff as_is strict (relaxed ∷ [])

policy_for_version-registered_example :
    (policy_for_version as_is both "relaxed" ≡ ok relaxed)
    × ((blank : String) → trim_space blank ≡ "" → policy_for_version as_is both blank ≡ ok strict)
unfolding trim_space is_space
policy_for_version-registered_example =
    policy_for_version-registered as_is strict (relaxed ∷ []) both relaxed both_eq (inr (inl refl))
      refl

policy_for_version-valid_example :
    (validate relaxed ≡ ok tt)
    × (((trim_space " relaxed " ≡ "") × (relaxed ≡ strict))
        ⊎ ((trim_space " relaxed " ≢ "") × ("relaxed" ≡ trim_space " relaxed ")))
unfolding policy_for_version trim_space is_space lookup insert
policy_for_version-valid_example =
    policy_for_version-valid as_is strict (relaxed ∷ []) both " relaxed " relaxed both_eq refl

abbrev swapped : List (String × Policy)
swapped = ("relaxed", relaxed) ∷ ("strict", strict) ∷ []

list_policies-stable_example :
    (list_policies both swapped ≡ list_policies both both.policies)
    × ((rest : List PolicyConfig) × (list_policies both swapped ≡ policy_config strict true ∷ rest)
        × All (λ y. (y.is_default ≡ false) × (y.version ≢ "strict")) rest
        × Ascending rest)
unfolding insert
list_policies-stable_example =
    list_policies-stable as_is strict (relaxed ∷ []) both swapped both_eq (Permᴰ.swap refl refl)

abbrev raw_labels : List String
raw_labels = " spam" ∷ "hate" ∷ "spam" ∷ []

abbrev pub suggestion : ProviderSuggestion
suggestion = record {
  risk_score = score_of half;
  labels = "spam" ∷ "hate" ∷ [];
  reason = "a slur";
  raw_output = "{}";
}

-- A decoder that reads every text as one object.
abbrev decoded_answer : ProviderSuggestionJson
decoded_answer = record {
  risk_score = some (score_of half);
  labels = raw_labels;
  reason = some " a slur";
}

abbrev pub decoder : Decoder
decoder = record { decode = λ raw. ok decoded_answer; at_end = λ raw. true }

pub decoder-numbers : DecodesNumbers decoder
decoder-numbers raw parsed score h k = let score_eq : score ≡ score_of half = cc in rw score_eq refl

suggestion_eq : parse_provider_suggestion as_is as_is decoder "{}" ≡ ok suggestion
unfolding parse_provider_suggestion normalize_labels trim_space is_space is_supported_label units
suggestion_eq = refl

parse_provider_suggestion_sound_example :
    (suggestion.raw_output ≡ "{}")
    × (decoder.at_end "{}" ≡ true)
    × (valid_score suggestion.risk_score ≡ true)
    × ((suggestion.labels ≢ []) × Supported suggestion.labels × Distinct suggestion.labels)
    × ((suggestion.reason ≢ "") × (trim_space suggestion.reason ≡ suggestion.reason))
    × ((parsed : ProviderSuggestionJson) × (decoder.decode "{}" ≡ ok parsed)
        × (parsed.risk_score ≡ some suggestion.risk_score)
        × ((x : String)
            → contains x suggestion.labels ≡ contains x (map (clean as_is) parsed.labels)))
parse_provider_suggestion_sound_example =
    parse_provider_suggestion_sound as_is as_is decoder decoder-numbers "{}" suggestion
      suggestion_eq
