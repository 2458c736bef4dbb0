-- ===== src/Tests/Analyzers.antt =====
-- A provider that answers, and the service that a configuration makes.
use hate_sentry.Base.{◌≡◌, ◌≢◌, refl, some, [], ◌∷◌}
use hate_sentry.Base.Text.{trim_space, trim_left, trim_right, is_space}
use hate_sentry.Float64.{units}
use hate_sentry.Errors.{ok}
use hate_sentry.Moderation.Types.{
  ProviderSuggestion, ProviderInfo, DecisionResult, is_supported_label,
}
use hate_sentry.Moderation.Policy.{decide}
use hate_sentry.Moderation.Parser.{parse_provider_suggestion, normalize_labels}
use hate_sentry.Ai.{
  Clients, Provider, DetectionService, openai_provider, analyze_text, openai_moderation,
  openai_call, parse_moderation_provider_output,
}
use hate_sentry.Ai.Analyzed.{IsAnswerOf, analyze_text-decides}
use hate_sentry.Tests.Policies.{strict, strict-valid, as_is, suggestion, decoder, decoder-numbers}
use hate_sentry.Tests.Configs.{loaded}

abbrev test_clients : Clients (Unit {0})
test_clients = record {
  create_chat_completion = λ key url request w. (ok ("{}" ∷ []), w);
  chat = λ url request w. (ok ("{}" ∷ []), w);
  float32 = λ x. x;
}

abbrev detection_service : DetectionService
detection_service = record {
  provider = some (openai_provider loaded.ai.openai);
  cfg = loaded.detection;
}

abbrev answered : ProviderSuggestion × ProviderInfo
answered = (suggestion, record { provider = "openai"; model = "" })

analyze_text-decides_example :
    (trim_space "hello" ≢ "")
    × ((provider : Provider) × (some (openai_provider loaded.ai.openai) ≡ some provider)
        × IsAnswerOf test_clients as_is as_is decoder provider "hello" tt answered)
    × ((r : DecisionResult) × (decide strict suggestion ≡ ok r) × (r.labels ≡ suggestion.labels))
unfolding analyze_text openai_moderation openai_call parse_moderation_provider_output
    parse_provider_suggestion normalize_labels trim_space trim_left trim_right is_space
    is_supported_label units
analyze_text-decides_example =
    analyze_text-decides test_clients as_is as_is decoder (some detection_service) "hello" tt strict
      {answer = answered} decoder-numbers strict-valid refl
