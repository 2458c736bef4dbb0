-- ===== src/Ai.antt =====
-- internal/ai: how a text is classified for moderation.
--
-- The clients of OpenAI and of Ollama are parameters: what they answer to a request. encoding/json
-- and the texts of `fmt` are those of the parser.
pub mod Analyzed
use Prim.Native.String.{[] as nil, ◌++◌ as concat}
use hate_sentry.Base.{
  String, Bool, true, false, not, ◌&&◌, ◌||◌, Option, none, some, List, [], ◌∷◌, str_eq,
  if◌then◌else◌,
}
use hate_sentry.Base.Text.{trim_space}
use hate_sentry.Base.Decimal.{Integer}
use hate_sentry.Float64.{Float64}
use hate_sentry.Errors.{
  Error, Result, ok, err, fail, raised, AppError, bad_request_error, configuration_error,
  validation_error, external_service_error,
}
use hate_sentry.Exec.{Exec, pure, raise, lift, require, continue, ◌>>=◌}
use hate_sentry.Config.{AiConfig, OpenAiConfig, OllamaConfig, DetectionConfig}
use hate_sentry.Moderation.Types.{ProviderSuggestion, ProviderInfo}
use hate_sentry.Moderation.Parser.{Decoder, parse_provider_suggestion}

-- A completion that is asked for, with one message of the system and one of the user, as JSON.
pub record ChatRequest : Type 0 where
  pub model : String
  pub system : String
  pub user : String
  pub max_tokens : Integer
  pub temperature : Float64

pub record Clients (W : Type 0) : Type 0 where
  -- `CreateChatCompletion` of a client for a key and a base address: the contents of the choices.
  pub create_chat_completion : String → Option String → ChatRequest → Exec W (List String)
  -- `Chat` of a client for a base address: the contents that the callback is given.
  pub chat : String → ChatRequest → Exec W (List String)
  -- `float32(x)`.
  pub float32 : Float64 → Float64

pub data Provider : Type 0 where
  openai_provider : OpenAiConfig → Provider
  ollama_provider : OllamaConfig → Provider
  -- One that does not moderate texts.
  other_provider : Provider

-- `DetectionService`.
pub record DetectionService : Type 0 where
  pub provider : Option Provider
  pub cfg : DetectionConfig

-- `NewDetectionService`.
unfoldable pub new_detection_service : AiConfig → DetectionConfig → Result DetectionService
new_detection_service cfg detection =
    if str_eq cfg.provider "ollama"
    then ok (record { provider = some (ollama_provider cfg.ollama); cfg = detection })
    else if str_eq cfg.provider "openai" || str_eq cfg.provider ""
    then ok (record { provider = some (openai_provider cfg.openai); cfg = detection })
    else fail (bad_request_error (concat "unsupported AI provider: " cfg.provider))

abbrev pub text_moderation_system_prompt : String
text_moderation_system_prompt =
    concat "You classify user-submitted text for a content moderation gateway.\n" (
      concat "Return exactly one JSON object and no markdown, prose, or code fences.\n" (
        concat "The JSON schema is:\n" (
          concat
            "{\"risk_score\": 0.0, \"labels\": [\"safe\"], \"reason\": \"brief operator-facing reason\"}\n"
            (concat "risk_score must be a number from 0 to 1.\n" (
              concat
                "labels must use only: hate, harassment, identity_attack, threat, sexual, violence, spam, self_harm, illegal, safe.\n"
                "Do not include a final allow/review/block decision; the server policy decides that.")))))

-- `buildTextModerationPrompt`.
unfoldable pub build_text_moderation_prompt : String → String
build_text_moderation_prompt content = concat "Moderate this text:\n\n" content

-- The request of a detection.
pub record DetectionRequest : Type 0 where
  pub request_id : String
  pub content : String
  pub image_url : String
  pub content_type : String

-- `validateDetectionRequest`: the first test that fails.
unfoldable pub validate_detection_request : DetectionConfig → DetectionRequest → Option AppError
validate_detection_request cfg req =
    if str_eq req.content "" && str_eq req.image_url ""
    then some (validation_error "content or image_url must be provided")
    else if not cfg.enable_text_analysis && not cfg.enable_image_analysis
    then some (configuration_error "both text and image analysis are disabled")
    else if not (str_eq req.content "") && not cfg.enable_text_analysis
    then some (configuration_error "text analysis is disabled")
    else if not (str_eq req.image_url "") && not cfg.enable_image_analysis
    then some (configuration_error "image analysis is disabled")
    else if str_eq req.content_type "image" && str_eq req.image_url ""
    then some (validation_error "image_url required for image analysis")
    else none

abbrev base_address : String → Option String
base_address url = if str_eq url "" then none else some url

-- `ExternalServiceError(err, message)`; of a nil error it is one too.
abbrev external : Option Error → String → Error
external e message = or_plain (external_service_error e message)
  where
    or_plain : Option Error → Error
    or_plain (some x) = x
    or_plain none = raised (configuration_error message)

abbrev pub external_result : {A : Type 0} → String → Result A → Result A
external_result message (ok a) = ok a
external_result message (err e) = err (external (some e) message)

-- The contents that `appendOllamaChatContent` has put together.
abbrev pub joined : List String → String
joined [] = nil
joined (part ∷ rest) =
    let after = joined rest in if str_eq part "" then after else concat part after

abbrev pub first_choice : List String → Result String
first_choice [] = err (external none "no response from OpenAI")
first_choice (content ∷ rest) = ok content

abbrev pub some_output : String → Result String
some_output output =
    if str_eq (trim_space output) ""
    then err (external none "no response from Ollama")
    else ok output

abbrev pub some_content : String → Result String
some_content s =
    if str_eq (trim_space s) "" then fail (validation_error "content is required") else ok s

module _ {W : Type 0} (clients : Clients W) (to_lower quote : String → String)
    (decoder : Decoder) where
  -- `parseModerationProviderOutput`.
  unfoldable pub parse_moderation_provider_output : String → Result ProviderSuggestion
  unfolding parse_provider_suggestion external_service_error
  parse_moderation_provider_output raw_output =
      external_result "failed to parse moderation response"
        (parse_provider_suggestion to_lower quote decoder raw_output)

  abbrev external_call : {A : Type 0} → Exec W A → Exec W A
  external_call m w =
      let (r, w') = m w in (external_result "failed to create moderation completion" r, w')

  abbrev with_info :
      ProviderInfo → Result ProviderSuggestion → Result (ProviderSuggestion × ProviderInfo)
  with_info info (ok suggestion) = ok (suggestion, info)
  with_info info (err e) = err e

  -- The end of both `AnalyzeTextModeration`s.
  abbrev pub suggested : ProviderInfo → Result String → Result (ProviderSuggestion × ProviderInfo)
  suggested info (err e) = err e
  suggested info (ok raw_output) = with_info info (parse_moderation_provider_output raw_output)

  unfoldable pub openai_call : OpenAiConfig → String → Exec W (List String)
  unfolding build_text_moderation_prompt
  openai_call cfg content = external_call (
      clients.create_chat_completion cfg.api_key (base_address cfg.base_url) (record {
        model = cfg.model;
        system = text_moderation_system_prompt;
        user = build_text_moderation_prompt content;
        max_tokens = cfg.max_tokens;
        temperature = clients.float32 cfg.temperature;
      }))

  -- `OpenAIProvider.AnalyzeTextModeration`.
  unfoldable pub openai_moderation :
      OpenAiConfig → String → Exec W (ProviderSuggestion × ProviderInfo)
  openai_moderation cfg content = do
    choices ← openai_call cfg content
    lift (suggested (record { provider = "openai"; model = cfg.model }) (first_choice choices))

  unfoldable pub ollama_call : OllamaConfig → String → Exec W (List String)
  unfolding build_text_moderation_prompt
  ollama_call cfg content = external_call (
      clients.chat cfg.base_url (record {
        model = cfg.model;
        system = text_moderation_system_prompt;
        user = build_text_moderation_prompt content;
        max_tokens = cfg.max_tokens;
        temperature = cfg.temperature;
      }))

  -- `OllamaProvider.AnalyzeTextModeration`.
  unfoldable pub ollama_moderation :
      OllamaConfig → String → Exec W (ProviderSuggestion × ProviderInfo)
  ollama_moderation cfg content = do
    parts ← ollama_call cfg content
    lift
        (suggested (record { provider = "ollama"; model = cfg.model }) (some_output (joined parts)))

  abbrev pub moderate_with : Provider → String → Exec W (ProviderSuggestion × ProviderInfo)
  moderate_with (openai_provider cfg) content = openai_moderation cfg content
  moderate_with (ollama_provider cfg) content = ollama_moderation cfg content
  moderate_with other_provider content =
      raise (raised (configuration_error "AI provider does not support text moderation"))

  abbrev pub provider_of : Option DetectionService → Option Provider
  provider_of none = none
  provider_of (some service) = service.provider

  -- `AnalyzeText`, which is the analyzer of the moderation service.
  unfoldable pub analyze_text :
      Option DetectionService → String → Exec W (ProviderSuggestion × ProviderInfo)
  unfolding openai_moderation ollama_moderation
  analyze_text service content = do
    provider ← require (provider_of service) (configuration_error "AI provider is not configured")
    filled ← lift (some_content content)
    moderate_with provider filled
