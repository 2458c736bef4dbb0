-- ===== src/Ai/Analyzed.antt =====
-- internal/ai/detection_service.go: what a classified text is worth to the moderation service.
use Prim.Native.String.{◌++◌}
use text.Mathlib.TextLemmas.{nil-append}
use hate_sentry.Base.{
  String, ◌≡◌, ◌≢◌, ◌⊎◌, inl, inr, refl, sym, ap, ◌∙◌, Option, none, some, List, [], ◌∷◌,
  if◌then◌else◌, Bool-cases, str_eq, eq_iff, Option-cases,
}
use hate_sentry.Base.Text.{trim_space}
use hate_sentry.Errors.{Result, ok, err, Result-cases, ok-injective}
use hate_sentry.Exec.{>>=-ok}
use hate_sentry.Config.{Config, OpenAiConfig, OllamaConfig}
use hate_sentry.Config.Overrides.{Environment, load}
use hate_sentry.Config.Loaded.{load-ok}
use hate_sentry.Moderation.Types.{ProviderSuggestion, ProviderInfo, DecisionResult}
use hate_sentry.Moderation.Policy.{Policy, decide}
use hate_sentry.Moderation.Policy.Thresholds.{IsValidPolicy}
use hate_sentry.Moderation.Parser.{Decoder, parse_provider_suggestion}
use hate_sentry.Moderation.Parser.Suggestion.{DecodesNumbers, decide-parse_provider_suggestion}
use hate_sentry.Ai.{
  Clients, Provider, openai_provider, ollama_provider, other_provider, DetectionService,
  new_detection_service, parse_moderation_provider_output, openai_moderation, ollama_moderation,
  analyze_text, moderate_with, provider_of, suggested, openai_call, ollama_call, first_choice,
  some_output, joined, external_result, text_moderation_system_prompt, build_text_moderation_prompt,
}

-- The texts one after the other.
abbrev pub concat_all : List String → String
concat_all [] = ""
concat_all (part ∷ rest) = part ++ concat_all rest

joined_lem : (parts : List String) → joined parts ≡ concat_all parts
joined_lem [] = refl
joined_lem (part ∷ rest) = elim (Bool-cases (str_eq part "")) [
  | inl empty ↦
      let blank = (eq_iff part "").0 empty in
      rw (empty, blank) (joined_lem rest ∙ sym (nil-append (concat_all rest)))
  | inr filled ↦ rw filled (ap (λ s. part ++ s) (joined_lem rest))
]

module _ {W : Type 0} (clients : Clients W) (to_lower quote : String → String)
    (decoder : Decoder) where
  -- The first choice of what OpenAI answers to the prompt, in the world `w`, is the text that the
  -- suggestion was parsed from.
  pub record IsOpenAiAnswer (cfg : OpenAiConfig) (content : String) (w : W)
      (answer : ProviderSuggestion × ProviderInfo) : Type 0 where
    pub raw : String
    pub others : List String
    pub is_response :
        (clients.create_chat_completion cfg.api_key
          (if str_eq cfg.base_url "" then none else some cfg.base_url)
          (record {
            model = cfg.model;
            system = text_moderation_system_prompt;
            user = "Moderate this text:\n\n" ++ content;
            max_tokens = cfg.max_tokens;
            temperature = clients.float32 cfg.temperature;
          })
          w).0
        ≡ ok (raw ∷ others)
    pub is_parsed : parse_provider_suggestion to_lower quote decoder raw ≡ ok answer.0
    pub is_named : answer.1 ≡ record { provider = "openai"; model = cfg.model }

  -- The parts of what Ollama answers to the prompt, in the world `w`, make up the text that the
  -- suggestion was parsed from.
  pub record IsOllamaAnswer (cfg : OllamaConfig) (content : String) (w : W)
      (answer : ProviderSuggestion × ProviderInfo) : Type 0 where
    pub parts : List String
    pub is_response :
        (clients.chat cfg.base_url
          (record {
            model = cfg.model;
            system = text_moderation_system_prompt;
            user = "Moderate this text:\n\n" ++ content;
            max_tokens = cfg.max_tokens;
            temperature = cfg.temperature;
          })
          w).0
        ≡ ok parts
    pub is_filled : trim_space (concat_all parts) ≢ ""
    pub is_parsed :
        parse_provider_suggestion to_lower quote decoder (concat_all parts) ≡ ok answer.0
    pub is_named : answer.1 ≡ record { provider = "ollama"; model = cfg.model }

  -- The answer of the provider of the service.
  abbrev pub IsAnswerOf : Provider → String → W → ProviderSuggestion × ProviderInfo → Type 0
  IsAnswerOf (openai_provider cfg) content w answer = IsOpenAiAnswer cfg content w answer
  IsAnswerOf (ollama_provider cfg) content w answer = IsOllamaAnswer cfg content w answer
  IsAnswerOf other_provider content w answer = ⊥

  call-ok :
      {A : Type 0} (message : String) (r : Result A) {a : A}
      → external_result message r ≡ ok a
      → r ≡ ok a
  call-ok message (ok b) h = h
  call-ok message (err e) h = cc

  choice-ok :
      (choices : List String) {raw : String}
      → first_choice choices ≡ ok raw
      → (others : List String) × (choices ≡ raw ∷ others)
  choice-ok [] h = cc
  choice-ok (content ∷ rest) {raw} h =
      let same : content ≡ raw = cc in (rest, ap (λ c. c ∷ rest) same)

  output-ok :
      (parts : List String) {raw : String}
      → some_output (joined parts) ≡ ok raw
      → (trim_space (concat_all parts) ≢ "") × (concat_all parts ≡ raw)
  output-ok parts {raw} h = elim (Bool-cases (str_eq (trim_space (joined parts)) "")) [
    | inl blank ↦ let refused : err _ ≡ ok raw = rw blank at h in cc
    | inr filled ↦
        let same : ok (joined parts) ≡ ok raw = rw filled at h in
        (
          (λ p.
              let blank =
                (eq_iff (trim_space (joined parts)) "").1 (ap trim_space (joined_lem parts) ∙ p) in
              cc),
          sym (joined_lem parts) ∙ ok-injective same,
        )
  ]

  parsed-ok :
      (raw : String) {suggestion : ProviderSuggestion}
      → parse_moderation_provider_output clients to_lower quote decoder raw ≡ ok suggestion
      → parse_provider_suggestion to_lower quote decoder raw ≡ ok suggestion
  unfolding parse_moderation_provider_output
  parsed-ok raw {suggestion} h =
      elim (Result-cases (parse_provider_suggestion to_lower quote decoder raw)) [
        | inr (e, failed) ↦ let refused : err _ ≡ ok suggestion = rw failed at h in cc
        | inl (s, parsed) ↦ let made : ok s ≡ ok suggestion = rw parsed at h in parsed ∙ made
      ]

  suggested-ok :
      (info : ProviderInfo) (output : Result String) {answer : ProviderSuggestion × ProviderInfo}
      → suggested clients to_lower quote decoder info output ≡ ok answer
      → ((raw : String) × (output ≡ ok raw)
          × (parse_provider_suggestion to_lower quote decoder raw ≡ ok answer.0))
        × (answer.1 ≡ info)
  suggested-ok info (err e) h = cc
  suggested-ok info (ok raw) {answer} h =
      elim (Result-cases (parse_moderation_provider_output clients to_lower quote decoder raw)) [
        | inr (e, failed) ↦ let refused : err _ ≡ ok answer = rw failed at h in cc
        | inl (suggestion, parsed) ↦
            let made : ok (suggestion, info) ≡ ok answer = rw parsed at h in
            let same = ok-injective made in
            ((raw, refl, parsed-ok raw parsed ∙ ap (λ a. ok a.0) same), ap (λ a. a.1) (sym same))
      ]

  moderate_with-ok :
      (provider : Provider) (content : String) (w : W) {answer : ProviderSuggestion × ProviderInfo}
      → (moderate_with clients to_lower quote decoder provider content w).0 ≡ ok answer
      → IsAnswerOf provider content w answer
  unfolding openai_moderation ollama_moderation openai_call ollama_call build_text_moderation_prompt
  moderate_with-ok (openai_provider cfg) content w h =
      let (choices, called, h1) =
        >>=-ok (openai_call clients to_lower quote decoder cfg content) _ w h in
      let ((raw, chosen, parsed), named) =
        suggested-ok (record { provider = "openai"; model = cfg.model }) (first_choice choices)
          h1 in
      let (others, listed) = choice-ok choices chosen in
      record {
        raw = raw;
        others = others;
        is_response = call-ok _ _ (called ∙ ap ok listed);
        is_parsed = parsed;
        is_named = named;
      }
  moderate_with-ok (ollama_provider cfg) content w h =
      let (parts, called, h1) =
        >>=-ok (ollama_call clients to_lower quote decoder cfg content) _ w h in
      let ((raw, given, parsed), named) =
        suggested-ok (record { provider = "ollama"; model = cfg.model })
          (some_output (joined parts)) h1 in
      let (filled, same) = output-ok parts given in
      record {
        parts = parts;
        is_response = call-ok _ _ called;
        is_filled = filled;
        is_parsed = rw (sym same) at parsed;
        is_named = named;
      }
  moderate_with-ok other_provider content w h = cc

  answer-parsed :
      (provider : Provider) (content : String) (w : W) (answer : ProviderSuggestion × ProviderInfo)
      → IsAnswerOf provider content w answer
      → (raw : String) × (parse_provider_suggestion to_lower quote decoder raw ≡ ok answer.0)
  answer-parsed (openai_provider cfg) content w answer h = (h.raw, h.is_parsed)
  answer-parsed (ollama_provider cfg) content w answer h = (concat_all h.parts, h.is_parsed)
  answer-parsed other_provider content w answer h = absurd h

  -- A text that is classified is not blank. The suggestion is parsed from what the provider of the
  -- service answers to the prompt with this text: from the first choice of OpenAI, or from all parts
  -- of Ollama's answer, which is not blank. No valid policy fails on it, and the decision has its
  -- labels. The decoder never yields NaN.
  pub analyze_text-decides :
      (service : Option DetectionService) (content : String) (w : W) (policy : Policy)
      {answer : ProviderSuggestion × ProviderInfo}
      → DecodesNumbers decoder
      → IsValidPolicy policy
      → (analyze_text clients to_lower quote decoder service content w).0 ≡ ok answer
      → (trim_space content ≢ "")
        × ((provider : Provider) × (provider_of clients to_lower quote decoder service
              ≡ some provider)
            × IsAnswerOf provider content w answer)
        × ((r : DecisionResult) × (decide policy answer.0 ≡ ok r) × (r.labels ≡ answer.0.labels))
  unfolding analyze_text
  analyze_text-decides service content w policy {answer} numbers valid h =
      elim (Option-cases (provider_of clients to_lower quote decoder service)) [
        | inl absent ↦ let refused : err _ ≡ ok answer = rw absent at h in cc
        | inr (provider, given) ↦ elim (Bool-cases (str_eq (trim_space content) "")) [
          | inl blank ↦ let refused : err _ ≡ ok answer = rw (given, blank) at h in cc
          | inr filled ↦
              let moderated : (moderate_with clients to_lower quote decoder provider content w).0
                  ≡ ok answer =
                rw (given, filled) at h in
              let answered = moderate_with-ok provider content w moderated in
              let (raw, parsed) = answer-parsed provider content w answer answered in
              (
                (λ p. let blank = (eq_iff (trim_space content) "").1 p in cc),
                (provider, given, answered),
                decide-parse_provider_suggestion to_lower quote decoder numbers raw answer.0 policy
                    parsed valid,
              )
        ]
      ]

-- A configuration that was loaded has a detection service, with the provider that it names.
pub new_detection_service-load :
    (env : Environment) (file out : Config)
    → load env file ≡ ok out
    → (service : DetectionService) × (new_detection_service out.ai out.detection ≡ ok service)
      × (service.cfg ≡ out.detection)
      × (((out.ai.provider ≡ "openai") × (service.provider ≡ some (openai_provider out.ai.openai)))
          ⊎ ((out.ai.provider ≡ "ollama")
              × (service.provider ≡ some (ollama_provider out.ai.ollama))))
unfolding new_detection_service
new_detection_service-load env file out h =
    let (provider, _, _, _) = load-ok env file out h in
    elim provider [
      | inl openai ↦ (
        record { provider = some (openai_provider out.ai.openai); cfg = out.detection },
        rw openai refl,
        refl,
        inl (openai, refl),
      )
      | inr ollama ↦ (
        record { provider = some (ollama_provider out.ai.ollama); cfg = out.detection },
        rw ollama refl,
        refl,
        inr (ollama, refl),
      )
    ]
