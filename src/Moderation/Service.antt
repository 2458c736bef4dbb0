-- ===== src/Moderation/Service.antt =====
-- internal/moderation/service.go: the records of the service, and what it is built from.
--
-- `W` is the world that the calls change. A `Repository` is the Go interface of that name; a
-- `System` holds the calls of the standard library and of other packages: the clock, `uuid.New`,
-- `encoding/json`, division of floats and the Prometheus recorder. Contexts, their deadlines and
-- log lines are left out. A pointer or an interface that may be nil is an `Option`.
use hate_sentry.Base.{ℕ, String, Option, none, List, [], ◌∷◌, Bool, true, ◌==◌, if◌then◌else◌}
use hate_sentry.Float64.{Float64}
use hate_sentry.Errors.{Error, Result, ok, err}
use hate_sentry.Exec.{Exec}
use hate_sentry.Models.{
  Time, ClientApplication, ModerationRequest, ModerationResult, ReviewCase, WebhookDelivery,
}
use hate_sentry.Moderation.Types.{
  Decision, ReviewStatus, WebhookDeliveryStatus, ProviderSuggestion, ProviderInfo,
}
use hate_sentry.Moderation.PolicySet.{PolicySet, new_policy_set}
use hate_sentry.Moderation.Policy.{Policy}
use hate_sentry.Moderation.Filters.{
  HistoryFilter, WebhookDeliveryFilter, ReviewCaseFilter, ReviewCaseCursor,
}

pub record StoredResult : Type 0 where
  pub request : ModerationRequest
  pub result : ModerationResult
  pub review_case : Option ReviewCase

pub record StoredReviewCase : Type 0 where
  pub review_case : ReviewCase
  pub request : ModerationRequest
  pub result : ModerationResult

pub record StoredReviewCasePage : Type 0 where
  pub items : List StoredReviewCase
  pub next_cursor : Option ReviewCaseCursor

pub record StoredStats : Type 0 where
  pub total_moderated : ℕ
  pub policy_allowed : ℕ
  pub policy_blocked : ℕ
  pub review_final_allowed : ℕ
  pub review_final_blocked : ℕ
  pub pending_review : ℕ
  pub reviewed : ℕ
  pub mistakes : ℕ
  pub webhook_total : ℕ
  pub webhook_succeeded : ℕ
  pub webhook_failed : ℕ
  pub webhook_retrying : ℕ

-- The rows of `SaveCheck`: a created row comes back with its id and its times.
pub record CheckRows : Type 0 where
  pub request : ModerationRequest
  pub result : ModerationResult
  pub review_case : Option ReviewCase

-- internal/webhooks/webhooks.go: the payload of a final decision.
pub record FinalDecisionPayload : Type 0 where
  pub delivery_id : String
  pub event : String
  pub request_id : String
  pub client_id : ℕ
  pub external_id : String
  pub actor_id : String
  pub source : String
  pub decision : String
  pub review_status : String
  pub risk_score : Float64
  pub labels : List String
  pub reason : String
  pub policy_version : String
  pub created_at : Time

pub record Repository (W : Type 0) : Type 0 where
  pub save_check : CheckRows → Exec W CheckRows
  pub get_result : ℕ → String → Exec W StoredResult
  pub get_result_for_client : ℕ → ℕ → String → Exec W StoredResult
  pub find_result_by_client_external_id : ℕ → String → Exec W (Option StoredResult)
  pub list_history : HistoryFilter → Exec W (List StoredResult)
  pub get_client : ℕ → Exec W (Option ClientApplication)
  pub save_webhook_delivery : WebhookDelivery → Exec W (Unit {0})
  pub get_webhook_delivery : ℕ → Exec W WebhookDelivery
  pub list_webhook_deliveries : WebhookDeliveryFilter → Exec W (List WebhookDelivery)
  pub list_retryable_webhook_deliveries : ℕ → ℕ → Time → Exec W (List WebhookDelivery)
  pub claim_failed_webhook_delivery : ℕ → ℕ → Time → Exec W WebhookDelivery
  pub update_webhook_delivery_attempt :
      ℕ → WebhookDeliveryStatus → Option ℕ → String → Time → Exec W WebhookDelivery
  pub get_stats : Exec W StoredStats
  pub list_review_cases : ReviewCaseFilter → Exec W StoredReviewCasePage
  pub get_review_case : ℕ → Exec W StoredReviewCase
  pub finalize_review_case :
      ℕ → ℕ → ReviewStatus → Decision → String → Time → Exec W StoredReviewCase

-- The calls of internal/observability that the service makes, with their arguments.
pub data Metric : Type 0 where
  check_recorded : String → String → String → Time → Metric
  review_finalized : String → String → Time → Metric
  webhook_delivered : String → String → Time → Metric
  retry_batch : String → Metric
  retry_batch_deliveries : String → ℕ → Metric

pub record System (W : Type 0) : Type 0 where
  pub now : W → Time × W
  pub new_uuid : W → String × W
  pub record_metric : Metric → W → W
  pub marshal_labels : List String → Result String
  pub unmarshal_labels : String → Result (List String)
  pub marshal_payload : FinalDecisionPayload → Result String
  pub unmarshal_payload : String → Result FinalDecisionPayload
  pub divide : ℕ → ℕ → Float64
  pub quote : String → String

abbrev pub Analyzer : Type 0 → Type 0
Analyzer W = String → Exec W (ProviderSuggestion × ProviderInfo)

-- `none` is a nil error.
abbrev pub Dispatcher : Type 0 → Type 0
Dispatcher W = ClientApplication → FinalDecisionPayload → W → Option Error × W

pub record Service (W : Type 0) : Type 0 where
  pub analyzer : Option (Analyzer W)
  pub repository : Option (Repository W)
  pub policies : PolicySet
  pub webhook_dispatcher : Option (Dispatcher W)
  pub has_metrics : Bool

-- `moderationClientType`.
unfoldable pub moderation_client_type : ℕ → String
moderation_client_type client_id = if client_id == 0 then "operator" else "api_key"

-- The `record…Metric` methods: nothing is recorded without a recorder.
abbrev pub record_metric : {W : Type 0} → System W → Service W → Metric → Exec W (Unit {0})
record_metric sys s m w = (ok tt, if s.has_metrics then sys.record_metric m w else w)

abbrev first_dispatcher : {W : Type 0} → List (Option (Dispatcher W)) → Option (Dispatcher W)
first_dispatcher [] = none
first_dispatcher (dispatcher ∷ _) = dispatcher

-- `NewServiceWithPolicySet`.
unfoldable pub new_service_with_policy_set :
    {W : Type 0}
    → Option (Analyzer W)
    → Option (Repository W)
    → PolicySet
    → List (Option (Dispatcher W))
    → Service W
new_service_with_policy_set analyzer repository policies dispatchers = record {
  analyzer = analyzer;
  repository = repository;
  policies = policies;
  webhook_dispatcher = first_dispatcher dispatchers;
  has_metrics = true;
}

-- A policy that is not valid becomes the default of a set that holds nothing else.
abbrev set_or_default : Policy → Result PolicySet → PolicySet
set_or_default policy (ok policies) = policies
set_or_default policy (err e) = record { default_policy = policy; policies = [] }

-- `NewService`.
unfoldable pub new_service :
    {W : Type 0}
    → (String → String)
    → Option (Analyzer W)
    → Option (Repository W)
    → Policy
    → List (Option (Dispatcher W))
    → Service W
unfolding new_service_with_policy_set new_policy_set
new_service quote analyzer repository policy dispatchers =
    new_service_with_policy_set analyzer repository
      (set_or_default policy (new_policy_set quote policy [])) dispatchers
