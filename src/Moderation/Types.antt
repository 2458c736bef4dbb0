-- ===== src/Moderation/Types.antt =====
-- internal/moderation/types.go: decisions, review statuses, labels and provider suggestions.
-- The string types of the source are texts, as they are there.
use hate_sentry.Base.{String, Bool, List, [], ◌∷◌, contains}
use hate_sentry.Float64.{Float64}

abbrev pub Decision : Type 0
Decision = String

abbrev pub decision_allow : Decision
decision_allow = "allow"

abbrev pub decision_review : Decision
decision_review = "review"

abbrev pub decision_block : Decision
decision_block = "block"

abbrev pub ReviewStatus : Type 0
ReviewStatus = String

abbrev pub review_status_pending : ReviewStatus
review_status_pending = "pending"

abbrev pub review_status_approved : ReviewStatus
review_status_approved = "approved"

abbrev pub review_status_rejected : ReviewStatus
review_status_rejected = "rejected"

abbrev pub review_status_mistake : ReviewStatus
review_status_mistake = "mistake"

abbrev pub review_status_completed : ReviewStatus
review_status_completed = "completed"

abbrev pub WebhookDeliveryStatus : Type 0
WebhookDeliveryStatus = String

abbrev pub webhook_delivery_succeeded : WebhookDeliveryStatus
webhook_delivery_succeeded = "succeeded"

abbrev pub webhook_delivery_failed : WebhookDeliveryStatus
webhook_delivery_failed = "failed"

abbrev pub webhook_delivery_retrying : WebhookDeliveryStatus
webhook_delivery_retrying = "retrying"

abbrev pub supported_labels : List String
supported_labels =
    "hate" ∷ "harassment" ∷ "identity_attack" ∷ "threat" ∷ "sexual" ∷ "violence" ∷ "spam"
    ∷ "self_harm" ∷ "illegal" ∷ "safe" ∷ []

unfoldable pub is_supported_label : String → Bool
is_supported_label label = contains label supported_labels

pub record ProviderSuggestion : Type 0 where
  pub risk_score : Float64
  pub labels : List String
  pub reason : String
  pub raw_output : String

pub record ProviderInfo : Type 0 where
  pub provider : String
  pub model : String

pub record DecisionResult : Type 0 where
  pub decision : Decision
  pub risk_score : Float64
  pub labels : List String
  pub reason : String
  pub policy_version : String
