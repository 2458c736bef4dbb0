-- ===== src/Moderation/Repository/Deliveries.antt =====
-- internal/moderation/repository.go: webhook deliveries are saved, listed, claimed and updated.
pub mod Claimed
use hate_sentry.Base.{
  ℕ, ◌+◌, ◌-◌, String, Bool, true, false, not, ◌&&◌, ◌||◌, ◌==◌, ltb, Option, none, some, List,
  str_eq, if◌then◌else◌,
}
use hate_sentry.Errors.{
  Error, Frame, app, Result, ok, err, fail, raised, conflict_error, record_not_found_error,
}
use hate_sentry.Exec.{Exec, pure, raise, lift, attempt, continue, ◌>>=◌, ◌>>◌}
use hate_sentry.Models.{Time, WebhookDelivery}
use hate_sentry.Database.{Database, Table, Query, report, transaction, database_error_of}
use hate_sentry.Moderation.Types.{
  WebhookDeliveryStatus, webhook_delivery_failed, webhook_delivery_retrying,
}
use hate_sentry.Moderation.Filters.{WebhookDeliveryFilter}
use hate_sentry.Moderation.Retry.{webhook_retry_lease}
use hate_sentry.Moderation.Repository.Loading.{connected, found_or}
use hate_sentry.Moderation.Repository.Results.{limit_of}

-- `status = failed OR (status = retrying AND last_attempt_at < before)`.
unfoldable pub retryable_before : Time → WebhookDelivery → Bool
retryable_before before row =
    str_eq row.status webhook_delivery_failed
    || (str_eq row.status webhook_delivery_retrying && ltb row.last_attempt_at before)

-- The condition of `ClaimFailedWebhookDelivery`; no limit of attempts is 0.
unfoldable pub claimable : ℕ → ℕ → Time → WebhookDelivery → Bool
unfolding retryable_before
claimable delivery_id max_attempts attempted_at row =
    ((row.id == delivery_id) && retryable_before (attempted_at - webhook_retry_lease) row)
    && (if max_attempts == 0 then true else ltb row.attempt_count max_attempts)

-- What `Updates` sets on a claimed row.
unfoldable pub claimed : Time → WebhookDelivery → WebhookDelivery
claimed attempted_at row = record row {
  status = webhook_delivery_retrying;
  attempt_count = row.attempt_count + 1;
  last_attempt_at = attempted_at;
  http_status = none;
  error_message = "";
}

-- What `UpdateWebhookDeliveryAttempt` sets.
unfoldable pub attempted :
    WebhookDeliveryStatus → Option ℕ → String → Time → WebhookDelivery → WebhookDelivery
attempted status http_status error_message attempted_at row = record row {
  status = status;
  last_attempt_at = attempted_at;
  http_status = http_status;
  error_message = error_message;
}

abbrev is_app_error : Frame → Bool
is_app_error (app e) = true
is_app_error _ = false

-- `err.(*apperrors.AppError)`: such an error of a transaction comes back as it is.
abbrev pub transaction_error : {A : Type 0} → String → Result A → Result A
transaction_error message (ok a) = ok a
transaction_error message (err e) =
    err (if is_app_error e.own then e else database_error_of e message)

-- Where no row was claimed: it is not there, or it is not to be claimed.
abbrev pub claim_refused : {W : Type 0} → Database W → ℕ → Exec W WebhookDelivery
claim_refused db delivery_id = do
  found ←
      report "failed to retrieve webhook delivery"
        (db.deliveries.first (λ row. row.id == delivery_id))
  delivery ← lift (found_or "Webhook delivery not found" found)
  raise (raised (conflict_error "Webhook delivery is not failed"))

module _ {W : Type 0} (connection : Option (Database W)) where
  -- `SaveWebhookDelivery`.
  unfoldable pub save_webhook_delivery : WebhookDelivery → Exec W (Unit {0})
  save_webhook_delivery delivery = do
    db ← connected connection
    created ← report "failed to save webhook delivery" (db.deliveries.create delivery)
    pure tt

  -- `GetWebhookDelivery`.
  unfoldable pub get_webhook_delivery : ℕ → Exec W WebhookDelivery
  get_webhook_delivery delivery_id = do
    db ← connected connection
    found ←
        report "failed to retrieve webhook delivery"
          (db.deliveries.first (λ row. row.id == delivery_id))
    lift (found_or "Webhook delivery not found" found)

  -- `ListWebhookDeliveries`.
  unfoldable pub list_webhook_deliveries : WebhookDeliveryFilter → Exec W (List WebhookDelivery)
  list_webhook_deliveries filter = do
    db ← connected connection
    report "failed to list webhook deliveries" (
        db.deliveries.find (record {
          matches = λ row.
              (if str_eq filter.status "" then true else str_eq row.status filter.status)
              && elim filter.client_id [ none ↦ true | some client_id ↦ row.client_id == client_id ]
              && (if str_eq filter.request_id ""
                  then true
                  else str_eq row.request_id filter.request_id);
          before = λ a b. ltb b.updated_at a.updated_at;
          limit = limit_of filter.limit;
        }))

  -- `ListRetryableWebhookDeliveries`.
  unfoldable pub list_retryable_webhook_deliveries : ℕ → ℕ → Time → Exec W (List WebhookDelivery)
  unfolding retryable_before
  list_retryable_webhook_deliveries limit max_attempts before = do
    db ← connected connection
    report "failed to list retryable webhook deliveries" (
        db.deliveries.find (record {
          matches = λ row. ltb row.attempt_count max_attempts && retryable_before before row;
          before = λ a b. ltb a.last_attempt_at b.last_attempt_at;
          limit = some limit;
        }))

  -- `ClaimFailedWebhookDelivery`: the update, and the reading of the row behind it, with no other
  -- worker in between.
  unfoldable pub claim_failed_webhook_delivery : ℕ → ℕ → Time → Exec W WebhookDelivery
  unfolding claimable claimed get_webhook_delivery
  claim_failed_webhook_delivery delivery_id max_attempts attempted_at = do
    db ← connected connection
    affected ← report "failed to claim webhook delivery" (
        db.deliveries.updates (claimable delivery_id max_attempts attempted_at)
          (claimed attempted_at))
    if not (affected == 1) then claim_refused db delivery_id else get_webhook_delivery delivery_id

  -- `UpdateWebhookDeliveryAttempt`.
  unfoldable pub update_webhook_delivery_attempt :
      ℕ → WebhookDeliveryStatus → Option ℕ → String → Time → Exec W WebhookDelivery
  unfolding attempted
  update_webhook_delivery_attempt delivery_id status http_status error_message attempted_at = do
    db ← connected connection
    result ← attempt (
        transaction db (do
          found ← db.deliveries.first (λ row. row.id == delivery_id)
          delivery ← lift (found_or "Webhook delivery not found" found)
          db.deliveries.save (attempted status http_status error_message attempted_at delivery)))
    lift (transaction_error "failed to update webhook delivery" result)
