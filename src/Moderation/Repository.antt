-- ===== src/Moderation/Repository.antt =====
-- internal/moderation/repository.go: `GormRepository`, over the interface to the database.
--
-- The parameter `to_lower` is `strings.ToLower`. A database that is nil is `none`.
pub mod Loading
pub mod Results
pub mod Deliveries
pub mod Cases
pub mod Keeps
use hate_sentry.Base.{String, Option}
use hate_sentry.Database.{Database}
use hate_sentry.Moderation.Service.{Repository}
use hate_sentry.Moderation.Repository.Results.{
  save_check, get_result, get_result_for_client, find_result_by_client_external_id, list_history,
  get_client,
}
use hate_sentry.Moderation.Repository.Deliveries.{
  save_webhook_delivery, get_webhook_delivery, list_webhook_deliveries,
  list_retryable_webhook_deliveries, claim_failed_webhook_delivery, update_webhook_delivery_attempt,
}
use hate_sentry.Moderation.Repository.Cases.{
  get_stats, list_review_cases, get_review_case, finalize_review_case,
}

-- `NewGormRepository`, seen as the interface that the service has.
abbrev pub gorm_repository : {W : Type 0} → (String → String) → Option (Database W) → Repository W
gorm_repository to_lower connection = record {
  save_check = save_check to_lower connection;
  get_result = get_result connection;
  get_result_for_client = get_result_for_client connection;
  find_result_by_client_external_id = find_result_by_client_external_id connection;
  list_history = list_history connection;
  get_client = get_client connection;
  save_webhook_delivery = save_webhook_delivery connection;
  get_webhook_delivery = get_webhook_delivery connection;
  list_webhook_deliveries = list_webhook_deliveries connection;
  list_retryable_webhook_deliveries = list_retryable_webhook_deliveries connection;
  claim_failed_webhook_delivery = claim_failed_webhook_delivery connection;
  update_webhook_delivery_attempt = update_webhook_delivery_attempt connection;
  get_stats = get_stats connection;
  list_review_cases = list_review_cases connection;
  get_review_case = get_review_case connection;
  finalize_review_case = finalize_review_case connection;
}
