-- ===== src/Moderation/Queries.antt =====
-- internal/moderation/service.go: what users, clients and operators read, and the retry by hand.
use hate_sentry.Base.{ℕ, ◌+◌, String, Option, List, [], ◌∷◌, map, ◌==◌, if◌then◌else◌}
use hate_sentry.Errors.{Result, ok, err, unauthorized_error, configuration_error, raised, reject_if}
use hate_sentry.Exec.{Exec, pure, lift, require, ◌>>=◌, ◌>>◌}
use hate_sentry.Float64.{Float64}
use hate_sentry.Models.{Time, WebhookDelivery}
use hate_sentry.Moderation.Types.{WebhookDeliveryStatus}
use hate_sentry.Moderation.Policy.{Policy}
use hate_sentry.Moderation.PolicySet.{PolicyConfig, list_policies}
use hate_sentry.Moderation.Validate.{normalize_result_request_id, parse_webhook_delivery_id}
use hate_sentry.Moderation.Filters.{
  normalize_history_filter, normalize_webhook_delivery_filter, WebhookDeliveryListInput,
}
use hate_sentry.Moderation.Service.{System, Service, StoredStats}
use hate_sentry.Moderation.Outputs.{
  ResultOutput, HistoryItemOutput, result_output_from_stored, history_item_output_from_stored,
  map_all,
}
use hate_sentry.Moderation.Delivery.{safe_stored_webhook_delivery_error}
use hate_sentry.Moderation.Retry.{retry_webhook_delivery}
use hate_sentry.Moderation.Review.{authenticated, configured}

pub record StatsOutput : Type 0 where
  pub total_moderated : ℕ
  pub allowed : ℕ
  pub blocked : ℕ
  pub pending_review : ℕ
  pub reviewed : ℕ
  pub mistakes : ℕ
  pub mistake_rate : Float64
  pub webhook_total : ℕ
  pub webhook_succeeded : ℕ
  pub webhook_failed : ℕ
  pub webhook_retrying : ℕ

pub record WebhookDeliveryOutput : Type 0 where
  pub id : ℕ
  pub delivery_id : String
  pub request_id : String
  pub client_id : ℕ
  pub event : String
  pub status : WebhookDeliveryStatus
  pub attempt_count : ℕ
  pub last_attempt_at : Time
  pub http_status : Option ℕ
  pub error_message : String
  pub created_at : Time
  pub updated_at : Time

-- `webhookDeliveryOutputFromModel`.
unfoldable pub webhook_delivery_output_from_model : WebhookDelivery → WebhookDeliveryOutput
unfolding safe_stored_webhook_delivery_error
webhook_delivery_output_from_model delivery = record {
  id = delivery.id;
  delivery_id = delivery.delivery_id;
  request_id = delivery.request_id;
  client_id = delivery.client_id;
  event = delivery.event;
  status = delivery.status;
  attempt_count = delivery.attempt_count;
  last_attempt_at = delivery.last_attempt_at;
  http_status = delivery.http_status;
  error_message = safe_stored_webhook_delivery_error delivery.error_message delivery.http_status;
  created_at = delivery.created_at;
  updated_at = delivery.updated_at;
}

-- The counting of `GetStats`; the counts of rows stay far below 2^63.
unfoldable pub stats_output : {W : Type 0} → System W → StoredStats → StatsOutput
stats_output sys stored = record {
  total_moderated = stored.total_moderated;
  allowed = stored.policy_allowed + stored.review_final_allowed;
  blocked = stored.policy_blocked + stored.review_final_blocked;
  pending_review = stored.pending_review;
  reviewed = stored.reviewed;
  mistakes = stored.mistakes;
  mistake_rate =
      if stored.reviewed == 0 then sys.divide 0 1 else sys.divide stored.mistakes stored.reviewed;
  webhook_total = stored.webhook_total;
  webhook_succeeded = stored.webhook_succeeded;
  webhook_failed = stored.webhook_failed;
  webhook_retrying = stored.webhook_retrying;
}

abbrev configured_policies : List PolicyConfig → Result (List PolicyConfig)
configured_policies [] = err (raised (configuration_error "moderation policies are not configured"))
configured_policies (config ∷ rest) = ok (config ∷ rest)

module _ {W : Type 0} (sys : System W) (s : Service W) where
  -- `ListPolicies`, with the order in which the map of policies is ranged over.
  unfoldable pub list_operator_policies : List (String × Policy) → ℕ → Result (List PolicyConfig)
  unfolding list_policies
  list_operator_policies entries operator_id = elim (authenticated operator_id) [
    | err e ↦ err e
    | ok done ↦ configured_policies (list_policies s.policies entries)
  ]

  -- `GetResult`.
  unfoldable pub get_result : ℕ → String → Exec W ResultOutput
  get_result user_id raw_request_id = do
    request_id ← lift (normalize_result_request_id raw_request_id)
    lift (authenticated user_id)
    repository ← configured s
    stored ← repository.get_result user_id request_id
    lift (result_output_from_stored sys stored)

  -- `GetClientResult`.
  unfoldable pub get_client_result : ℕ → ℕ → String → Exec W ResultOutput
  get_client_result user_id client_id raw_request_id = do
    request_id ← lift (normalize_result_request_id raw_request_id)
    lift (authenticated user_id)
    lift (
        reject_if (client_id == 0) (raised (unauthorized_error "API key client not authenticated")))
    repository ← configured s
    stored ← repository.get_result_for_client user_id client_id request_id
    lift (result_output_from_stored sys stored)

  -- `ListHistory`.
  unfoldable pub list_history :
      ℕ → String → String → String → String → Exec W (List HistoryItemOutput)
  list_history operator_id decision client_id external_id limit = do
    lift (authenticated operator_id)
    repository ← configured s
    filter ← lift (normalize_history_filter decision client_id external_id limit)
    stored ← repository.list_history filter
    lift (map_all (history_item_output_from_stored sys) stored)

  -- `GetStats`.
  unfoldable pub get_stats : ℕ → Exec W StatsOutput
  unfolding stats_output
  get_stats reviewer_id = do
    lift (authenticated reviewer_id)
    repository ← configured s
    stored ← repository.get_stats
    pure (stats_output sys stored)

  -- `ListWebhookDeliveries`.
  unfoldable pub list_webhook_deliveries :
      ℕ → WebhookDeliveryListInput → Exec W (List WebhookDeliveryOutput)
  unfolding webhook_delivery_output_from_model
  list_webhook_deliveries operator_id input = do
    lift (authenticated operator_id)
    repository ← configured s
    filter ← lift (normalize_webhook_delivery_filter input)
    deliveries ← repository.list_webhook_deliveries filter
    pure (map webhook_delivery_output_from_model deliveries)

  -- `GetWebhookDelivery`.
  unfoldable pub get_webhook_delivery : ℕ → String → Exec W WebhookDeliveryOutput
  unfolding webhook_delivery_output_from_model
  get_webhook_delivery operator_id delivery_id = do
    lift (authenticated operator_id)
    repository ← configured s
    id ← lift (parse_webhook_delivery_id delivery_id)
    delivery ← repository.get_webhook_delivery id
    pure (webhook_delivery_output_from_model delivery)

  -- `RetryWebhookDelivery`: attempts are not limited.
  unfoldable pub retry_by_hand : ℕ → String → Exec W WebhookDeliveryOutput
  unfolding webhook_delivery_output_from_model retry_webhook_delivery
  retry_by_hand operator_id delivery_id = do
    lift (authenticated operator_id)
    repository ← configured s
    dispatch ←
        require s.webhook_dispatcher (configuration_error "webhook dispatcher is not configured")
    id ← lift (parse_webhook_delivery_id delivery_id)
    updated ← retry_webhook_delivery sys s repository dispatch id 0 "manual_retry"
    pure (webhook_delivery_output_from_model updated)
