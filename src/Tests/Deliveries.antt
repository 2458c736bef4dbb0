-- ===== src/Tests/Deliveries.antt =====
-- Errors of deliveries at concrete values.
use hate_sentry.Base.{◌≡◌, [], some}
use hate_sentry.Errors.{Error, delivery}
use hate_sentry.Moderation.Delivery.{delivery_outcome, safe_stored_webhook_delivery_error}
use hate_sentry.Moderation.Delivery.Errors.{safe_stored_webhook_delivery_error-delivery_outcome}

abbrev refused : Error
refused = record { own = delivery 503 "webhook returned status 503"; causes = [] }

safe_stored_webhook_delivery_error-delivery_outcome_example :
    safe_stored_webhook_delivery_error
      ((delivery_outcome (some refused)).error_message)
      ((delivery_outcome (some refused)).http_status)
    ≡ (delivery_outcome (some refused)).error_message
safe_stored_webhook_delivery_error-delivery_outcome_example =
    safe_stored_webhook_delivery_error-delivery_outcome (some refused)
