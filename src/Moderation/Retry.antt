-- ===== src/Moderation/Retry.antt =====
-- internal/moderation/service.go: failed webhook deliveries are sent again, one by hand or a batch.
pub mod Batch
use hate_sentry.Base.{
  ℕ, zero, suc, ◌+◌, ◌-◌, ◌*◌, ◌^◌, String, Option, none, some, List, [], ◌∷◌, Bool, true, false,
  str_eq, if◌then◌else◌,
}
use hate_sentry.Base.Text.{trim_space}
use hate_sentry.Base.Decimal.{Integer}
use hate_sentry.Errors.{
  Error, Result, ok, err, internal, record_not_found_error, unauthorized_error, configuration_error,
  raised, with_details, error_text,
}
use hate_sentry.Exec.{Exec, pure, raise, lift, run, attempt, require, act, continue, ◌>>=◌, ◌>>◌}
use hate_sentry.Models.{Time, ClientApplication, WebhookDelivery}
use hate_sentry.Moderation.Types.{webhook_delivery_succeeded, webhook_delivery_failed}
use hate_sentry.Moderation.Filters.{
  normalize_webhook_retry_limit, normalize_webhook_retry_max_attempts,
}
use hate_sentry.Moderation.Service.{
  System, Service, Repository, Dispatcher, FinalDecisionPayload, Metric, webhook_delivered,
  retry_batch, retry_batch_deliveries, record_metric,
}
use hate_sentry.Moderation.Delivery.{deliver_final_decision, is_webhook_retry_conflict}

-- Two minutes, in nanoseconds.
abbrev pub webhook_retry_lease : Time
webhook_retry_lease = 120 * 10 ^ 9

pub record WebhookRetryInput : Type 0 where
  pub limit : Integer
  pub max_attempts : Integer

pub record WebhookRetryOutput : Type 0 where
  pub attempted : ℕ
  pub succeeded : ℕ
  pub failed : ℕ
  pub skipped : ℕ

-- `continue` or the counting at the end of the loop's body.
unfoldable pub count_retry : WebhookRetryOutput → Result WebhookDelivery → WebhookRetryOutput
unfolding is_webhook_retry_conflict
count_retry out (err e) =
    if is_webhook_retry_conflict e
    then record out { skipped = out.skipped + 1 }
    else record out { attempted = out.attempted + 1; failed = out.failed + 1 }
count_retry out (ok updated) =
    if str_eq updated.status webhook_delivery_succeeded
    then record out { attempted = out.attempted + 1; succeeded = out.succeeded + 1 }
    else record out { attempted = out.attempted + 1; failed = out.failed + 1 }

module _ {W : Type 0} (sys : System W) (s : Service W) (repository : Repository W) where
  -- `recordClaimedWebhookDeliveryFailure`, and the metric that follows it at each use.
  unfoldable pub record_claimed_failure : ℕ → String → String → Time → Exec W (Unit {0})
  record_claimed_failure delivery_id message trigger started_at = do
    at ← run sys.now
    updated ← attempt (
        repository.update_webhook_delivery_attempt delivery_id webhook_delivery_failed none message
          at)
    ended_at ← run sys.now
    record_metric sys s (webhook_delivered webhook_delivery_failed trigger (ended_at - started_at))

  -- The second half of `retryWebhookDelivery`, with a client to send to.
  unfoldable pub resend :
      Dispatcher W → WebhookDelivery → ClientApplication → String → Time → Exec W WebhookDelivery
  unfolding record_claimed_failure
  resend dispatch delivery client trigger started_at =
      elim (sys.unmarshal_payload delivery.payload) [
        | err e ↦ do
          record_claimed_failure delivery.id "webhook payload decode failed" trigger started_at
          raise (raised (with_details (internal "failed to decode webhook payload") (error_text e)))
        | ok payload ↦ do
          outcome ←
              deliver_final_decision dispatch client
                (record payload { delivery_id = delivery.delivery_id })
          ended_at ← run sys.now
          record_metric sys s (webhook_delivered outcome.status trigger (ended_at - started_at))
          at ← run sys.now
          repository.update_webhook_delivery_attempt delivery.id outcome.status outcome.http_status
              outcome.error_message at
      ]

  abbrev no_client : WebhookDelivery → String → Time → Exec W WebhookDelivery
  no_client delivery trigger started_at = do
    record_claimed_failure delivery.id "Webhook client not found" trigger started_at
    raise (raised (record_not_found_error "Webhook client not found"))

  abbrev resend_to :
      Dispatcher W
      → WebhookDelivery
      → String
      → Time
      → Result (Option ClientApplication)
      → Exec W WebhookDelivery
  resend_to dispatch delivery trigger started_at (err e) = do
    record_claimed_failure delivery.id "webhook client lookup failed" trigger started_at
    raise e
  resend_to dispatch delivery trigger started_at (ok none) = no_client delivery trigger started_at
  resend_to dispatch delivery trigger started_at (ok (some client)) =
      if str_eq (trim_space client.webhook_url) ""
      then no_client delivery trigger started_at
      else resend dispatch delivery client trigger started_at

  -- `retryWebhookDelivery`.
  unfoldable pub retry_webhook_delivery : Dispatcher W → ℕ → ℕ → String → Exec W WebhookDelivery
  unfolding resend record_claimed_failure
  retry_webhook_delivery dispatch delivery_id max_attempts trigger = do
    started_at ← run sys.now
    at ← run sys.now
    delivery ← repository.claim_failed_webhook_delivery delivery_id max_attempts at
    client ← attempt (repository.get_client delivery.client_id)
    resend_to dispatch delivery trigger started_at client

  -- The loop of `RetryFailedWebhookDeliveries`.
  unfoldable pub retry_loop :
      Dispatcher W → ℕ → List WebhookDelivery → WebhookRetryOutput → Exec W WebhookRetryOutput
  retry_loop dispatch max_attempts [] out = pure out
  retry_loop dispatch max_attempts (delivery ∷ rest) out = do
    updated ← attempt (retry_webhook_delivery dispatch delivery.id max_attempts "automatic_retry")
    retry_loop dispatch max_attempts rest (count_retry out updated)

-- Every early return of the batch counts a failed batch.
abbrev batch_failed : {W A : Type 0} → System W → Service W → Exec W A → Exec W A
batch_failed {W} {A} sys s m w = let (r, w') = m w in counted r w'
  where
    counted : Result A → W → Result A × W
    counted (ok a) w = (ok a, w)
    counted (err e) w = (err e, (record_metric sys s (retry_batch "failed") w).1)

-- `RetryFailedWebhookDeliveries`.
unfoldable pub retry_failed_webhook_deliveries :
    {W : Type 0} → System W → Service W → WebhookRetryInput → Exec W WebhookRetryOutput
unfolding retry_loop
retry_failed_webhook_deliveries {W} sys s input = do
  repository ←
      batch_failed sys s
        (require s.repository (configuration_error "moderation repository is not configured"))
  dispatch ←
      batch_failed sys s
        (require s.webhook_dispatcher (configuration_error "webhook dispatcher is not configured"))
  limit ← batch_failed sys s (lift (normalize_webhook_retry_limit input.limit))
  max_attempts ← batch_failed sys s (lift (normalize_webhook_retry_max_attempts input.max_attempts))
  now ← run sys.now
  deliveries ←
      batch_failed sys s (
        repository.list_retryable_webhook_deliveries limit max_attempts (now - webhook_retry_lease))
  out ←
      retry_loop sys s repository dispatch max_attempts deliveries
        (record { attempted = 0; succeeded = 0; failed = 0; skipped = 0 })
  record_metric sys s (retry_batch "completed")
  record_metric sys s (retry_batch_deliveries "succeeded" out.succeeded)
  record_metric sys s (retry_batch_deliveries "failed" out.failed)
  record_metric sys s (retry_batch_deliveries "skipped" out.skipped)
  pure out
