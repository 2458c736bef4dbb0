-- ===== src/Moderation/Delivery.antt =====
-- internal/moderation/service.go: final decisions are sent to the client's webhook and recorded.
pub mod Errors
use Prim.Native.String.{◌++◌}
use hate_sentry.Base.{
  ℕ, zero, suc, ◌-◌, String, Option, none, some, List, [], ◌∷◌, Bool, true, false, str_eq, not,
  ◌||◌, ◌&&◌, ◌==◌, if◌then◌else◌,
}
use hate_sentry.Base.Text.{trim_space}
use hate_sentry.Base.Decimal.{itoa}
use hate_sentry.Errors.{
  Error, Frame, app, plain, delivery, deadline_exceeded, network, dns, frames, as_app_error,
  AppError, ErrorCode, conflict, duplicate_record, Result, ok, err, internal,
  record_not_found_error, raised, with_details, error_text,
}
use hate_sentry.Exec.{Exec, pure, raise, lift, run, attempt, act, continue, ◌>>=◌, ◌>>◌}
use hate_sentry.Models.{Time, ClientApplication, WebhookDelivery}
use hate_sentry.Moderation.Types.{
  WebhookDeliveryStatus, webhook_delivery_succeeded, webhook_delivery_failed,
}
use hate_sentry.Moderation.Service.{
  System, Service, Repository, Dispatcher, FinalDecisionPayload, StoredResult, Metric,
  webhook_delivered, record_metric,
}
use hate_sentry.Moderation.Outputs.{decode_labels}

-- `errors.As(err, &deliveryErr)`, read for its status; 0 stands for none found.
unfoldable pub delivery_status : List Frame → ℕ
delivery_status [] = 0
delivery_status (delivery status message ∷ rest) = status
delivery_status (_ ∷ rest) = delivery_status rest

-- `errors.Is(err, context.DeadlineExceeded)`.
unfoldable pub has_deadline_exceeded : List Frame → Bool
has_deadline_exceeded [] = false
has_deadline_exceeded (deadline_exceeded ∷ rest) = true
has_deadline_exceeded (_ ∷ rest) = has_deadline_exceeded rest

-- `errors.As(err, &networkErr) && networkErr.Timeout()`: of the first `net.Error`, which a
-- `net.DNSError` and `context.DeadlineExceeded` are too.
unfoldable pub network_timeout : List Frame → Bool
network_timeout [] = false
network_timeout (deadline_exceeded ∷ rest) = true
network_timeout (network timed_out message ∷ rest) = timed_out
network_timeout (dns timed_out message ∷ rest) = timed_out
network_timeout (_ ∷ rest) = network_timeout rest

-- `errors.As(err, &dnsErr)`.
unfoldable pub has_dns_error : List Frame → Bool
has_dns_error [] = false
has_dns_error (dns timed_out message ∷ rest) = true
has_dns_error (_ ∷ rest) = has_dns_error rest

-- `safeWebhookDeliveryError`.
unfoldable pub safe_webhook_delivery_error : Error → String
safe_webhook_delivery_error e =
    if not (delivery_status (frames e) == 0)
    then "webhook returned HTTP status " ++ itoa (delivery_status (frames e))
    else if has_deadline_exceeded (frames e) || network_timeout (frames e)
    then "webhook delivery timed out"
    else if has_dns_error (frames e)
    then "webhook DNS resolution failed"
    else "webhook delivery failed"

-- `safeStoredWebhookDeliveryError`.
unfoldable pub safe_stored_webhook_delivery_error : String → Option ℕ → String
safe_stored_webhook_delivery_error stored none =
    let message = trim_space stored in
    if str_eq message ""
      || str_eq message "webhook delivery failed"
      || str_eq message "webhook delivery timed out"
      || str_eq message "webhook DNS resolution failed"
      || str_eq message "Webhook client not found"
      || str_eq message "webhook client lookup failed"
      || str_eq message "webhook payload decode failed"
    then message
    else "webhook delivery failed"
safe_stored_webhook_delivery_error stored (some status) =
    if str_eq (trim_space stored) "" then "" else "webhook returned HTTP status " ++ itoa status

-- `isWebhookRetryConflict`, `isConflictError`.
abbrev pub is_code : ErrorCode → Bool → Bool
is_code conflict duplicate_too = true
is_code duplicate_record duplicate_too = duplicate_too
is_code _ duplicate_too = false

abbrev has_code : Option AppError → Bool → Bool
has_code none duplicate_too = false
has_code (some e) duplicate_too = is_code e.code duplicate_too

unfoldable pub is_webhook_retry_conflict : Error → Bool
is_webhook_retry_conflict e = has_code (as_app_error e) false

unfoldable pub is_conflict_error : Error → Bool
is_conflict_error e = has_code (as_app_error e) true

-- The three results of `deliverFinalDecision`.
pub record DeliveryOutcome : Type 0 where
  pub status : WebhookDeliveryStatus
  pub http_status : Option ℕ
  pub error_message : String

unfoldable pub delivery_outcome : Option Error → DeliveryOutcome
unfolding safe_webhook_delivery_error
delivery_outcome none = record {
  status = webhook_delivery_succeeded;
  http_status = none;
  error_message = "";
}
delivery_outcome (some e) = record {
  status = webhook_delivery_failed;
  http_status = if delivery_status (frames e) == 0 then none else some (delivery_status (frames e));
  error_message = safe_webhook_delivery_error e;
}

-- `deliverFinalDecision`.
abbrev pub deliver_final_decision :
    {W : Type 0} → Dispatcher W → ClientApplication → FinalDecisionPayload → Exec W DeliveryOutcome
deliver_final_decision dispatch client payload w =
    let (e, w') = dispatch client payload w in (ok (delivery_outcome e), w')

abbrev pub or_default : String → String → String
or_default value default_value = if str_eq value "" then default_value else value

-- The payload of `dispatchFinalDecision`.
unfoldable pub final_decision_payload :
    String → ClientApplication → StoredResult → List String → String → String → FinalDecisionPayload
final_decision_payload delivery_id client stored labels review_status final_decision = record {
  delivery_id = delivery_id;
  event = "moderation.final_decision";
  request_id = stored.request.request_id;
  client_id = client.id;
  external_id = stored.request.external_id;
  actor_id = stored.request.actor_id;
  source = stored.request.source;
  decision = or_default final_decision stored.result.decision;
  review_status = review_status;
  risk_score = stored.result.risk_score;
  labels = labels;
  reason = stored.result.reason;
  policy_version = stored.result.policy_version;
  created_at = stored.result.created_at;
}

-- The row that records a first attempt. The database gives it its id and its times.
unfoldable pub first_delivery :
    FinalDecisionPayload → String → DeliveryOutcome → Time → WebhookDelivery
first_delivery payload payload_json outcome at = record {
  id = 0;
  created_at = 0;
  updated_at = 0;
  delivery_id = payload.delivery_id;
  request_id = payload.request_id;
  client_id = payload.client_id;
  event = payload.event;
  status = outcome.status;
  attempt_count = 1;
  last_attempt_at = at;
  http_status = outcome.http_status;
  error_message = outcome.error_message;
  payload = payload_json;
}

module _ {W : Type 0} (sys : System W) (s : Service W) (repository : Repository W) where
  -- From the labels on: send, count, record.
  unfoldable pub send_and_record :
      Dispatcher W
      → ClientApplication
      → StoredResult
      → List String
      → String
      → String
      → Exec W (Unit {0})
  unfolding final_decision_payload first_delivery delivery_outcome
  send_and_record dispatch client stored labels review_status final_decision = do
    delivery_id ← run sys.new_uuid
    let payload =
        final_decision_payload delivery_id client stored labels review_status final_decision
    payload_json ← lift (sys.marshal_payload payload)
    started_at ← run sys.now
    outcome ← deliver_final_decision dispatch client payload
    ended_at ← run sys.now
    record_metric sys s (webhook_delivered outcome.status "initial" (ended_at - started_at))
    at ← run sys.now
    repository.save_webhook_delivery (first_delivery payload payload_json outcome at)

  abbrev dispatch_to_client :
      Dispatcher W → StoredResult → String → String → Option ClientApplication → Exec W (Unit {0})
  dispatch_to_client dispatch stored review_status final_decision none = pure tt
  dispatch_to_client dispatch stored review_status final_decision (some client) =
      if str_eq (trim_space client.webhook_url) "" then pure tt else do
        labels ← lift (decode_labels sys stored.result.labels)
        send_and_record dispatch client stored labels review_status final_decision

  abbrev dispatch_for :
      Option (Dispatcher W) → Option ℕ → StoredResult → String → String → Exec W (Unit {0})
  dispatch_for none client_id stored review_status final_decision = pure tt
  dispatch_for (some dispatch) none stored review_status final_decision = pure tt
  dispatch_for (some dispatch) (some client_id) stored review_status final_decision = do
    client ← repository.get_client client_id
    dispatch_to_client dispatch stored review_status final_decision client

  -- `dispatchFinalDecision`: an error on the way is logged and ends it, and nobody sees it.
  unfoldable pub dispatch_final_decision : StoredResult → String → String → Exec W (Unit {0})
  dispatch_final_decision stored review_status final_decision w = (
    ok tt,
    (dispatch_for s.webhook_dispatcher stored.request.client_id stored review_status final_decision
        w).1,
  )
