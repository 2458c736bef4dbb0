-- ===== src/Moderation/Filters.antt =====
-- internal/moderation/service.go: the filters of the list requests, and the page cursor.
pub mod Accepted
pub mod Cursor
use Prim.Native.String.{◌++◌}
use hate_sentry.Base.{
  ℕ, zero, suc, String, len, Bool, true, false, not, ◌||◌, ◌&&◌, Option, none, some, str_eq, ltb,
  ◌==◌, if◌then◌else◌,
}
use hate_sentry.Base.Text.{trim_space}
use hate_sentry.Base.Decimal.{itoa, parse_uint, parse_int, Integer, nonnegative, negative}
use hate_sentry.Errors.{
  Result, ok, err, Error, raised, fail, reject_if, internal, with_details, error_text,
  validation_error, ◌>>◌, ◌>>=◌,
}
use hate_sentry.Models.{Time, is_zero_time}
use hate_sentry.Moderation.Types.{
  Decision, decision_allow, decision_review, decision_block, ReviewStatus, review_status_pending,
  review_status_approved, review_status_rejected, review_status_mistake, review_status_completed,
  WebhookDeliveryStatus, webhook_delivery_succeeded, webhook_delivery_failed,
  webhook_delivery_retrying,
}
use hate_sentry.Moderation.Validate.{invalid, bounded, max_metadata_length, max_request_id_length}

abbrev pub max_list_limit : ℕ
max_list_limit = 100

abbrev pub default_list_limit : ℕ
default_list_limit = 50

abbrev pub review_case_cursor_version : ℕ
review_case_cursor_version = 1

abbrev positive_limit : ℕ → Option Integer → Result ℕ
positive_limit max_limit (some (nonnegative (suc n))) = do
  reject_if (ltb max_limit (suc n)) (invalid ("limit must not exceed " ++ itoa max_limit))
  ok (suc n)
positive_limit max_limit _ = err (invalid "limit must be a positive integer")

-- `normalizeListLimit`.
unfoldable pub normalize_list_limit : String → ℕ → ℕ → Result ℕ
normalize_list_limit limit default_limit max_limit =
    let trimmed = trim_space limit in
    if str_eq trimmed "" then ok default_limit else positive_limit max_limit (parse_int trimmed)

-- `normalizeWebhookRetryLimit`, `normalizeWebhookRetryMaxAttempts`: of a Go `int`.
unfoldable pub normalize_webhook_retry_limit : Integer → Result ℕ
normalize_webhook_retry_limit (nonnegative (suc n)) = do
  reject_if (ltb max_list_limit (suc n))
      (invalid ("webhook retry limit must not exceed " ++ itoa max_list_limit))
  ok (suc n)
normalize_webhook_retry_limit _ = err (invalid "webhook retry limit must be a positive integer")

unfoldable pub normalize_webhook_retry_max_attempts : Integer → Result ℕ
normalize_webhook_retry_max_attempts (nonnegative (suc (suc n))) = ok (suc (suc n))
normalize_webhook_retry_max_attempts _ =
    err (invalid "webhook retry max_attempts must be greater than 1")

-- `normalizeDecisionFilter`.
unfoldable pub normalize_decision_filter : String → Result Decision
normalize_decision_filter decision =
    let trimmed = trim_space decision in
    if str_eq trimmed ""
      || str_eq trimmed decision_allow
      || str_eq trimmed decision_review
      || str_eq trimmed decision_block
    then ok trimmed
    else err (invalid "decision must be allow, review, or block")

abbrev positive_filter : String → Option ℕ → Result (Option ℕ)
positive_filter field (some (suc n)) = ok (some (suc n))
positive_filter field _ = err (invalid (field ++ " must be a positive integer"))

-- `normalizeOptionalUintFilter`.
unfoldable pub normalize_optional_uint_filter : String → String → Result (Option ℕ)
normalize_optional_uint_filter value field =
    let trimmed = trim_space value in
    if str_eq trimmed "" then ok none else positive_filter field (parse_uint trimmed)

-- `normalizeWebhookDeliveryStatusFilter`.
unfoldable pub normalize_webhook_delivery_status_filter : String → Result WebhookDeliveryStatus
normalize_webhook_delivery_status_filter status =
    let trimmed = trim_space status in
    if str_eq trimmed ""
      || str_eq trimmed webhook_delivery_succeeded
      || str_eq trimmed webhook_delivery_failed
      || str_eq trimmed webhook_delivery_retrying
    then ok trimmed
    else err (invalid "status must be succeeded, failed, or retrying")

pub record HistoryFilter : Type 0 where
  pub decision : Decision
  pub client_id : Option ℕ
  pub external_id : String
  pub limit : ℕ

-- `normalizeHistoryFilter`.
unfoldable pub normalize_history_filter : String → String → String → String → Result HistoryFilter
unfolding bounded
normalize_history_filter decision client_id external_id limit = do
  decision' ← normalize_decision_filter decision
  client_id' ← normalize_optional_uint_filter client_id "client_id"
  bounded "external_id" max_metadata_length (trim_space external_id)
  limit' ← normalize_list_limit limit default_list_limit max_list_limit
  ok (record {
    decision = decision';
    client_id = client_id';
    external_id = trim_space external_id;
    limit = limit';
  })

pub record WebhookDeliveryListInput : Type 0 where
  pub status : String
  pub client_id : String
  pub request_id : String
  pub limit : String

pub record WebhookDeliveryFilter : Type 0 where
  pub status : WebhookDeliveryStatus
  pub client_id : Option ℕ
  pub request_id : String
  pub limit : ℕ

-- `normalizeWebhookDeliveryFilter`.
unfoldable pub normalize_webhook_delivery_filter :
    WebhookDeliveryListInput → Result WebhookDeliveryFilter
unfolding bounded
normalize_webhook_delivery_filter input = do
  status ← normalize_webhook_delivery_status_filter input.status
  client_id ← normalize_optional_uint_filter input.client_id "client_id"
  bounded "request_id" max_request_id_length (trim_space input.request_id)
  limit ← normalize_list_limit input.limit default_list_limit max_list_limit
  ok (record {
    status = status;
    client_id = client_id;
    request_id = trim_space input.request_id;
    limit = limit;
  })

pub record ReviewCaseCursor : Type 0 where
  pub version : ℕ
  pub status : ReviewStatus
  pub reviewed_at : Time
  pub id : ℕ

pub record ReviewCaseFilter : Type 0 where
  pub status : ReviewStatus
  pub limit : ℕ
  pub cursor : Option ReviewCaseCursor

-- `isSupportedReviewStatus`.
unfoldable pub is_supported_review_status : ReviewStatus → Bool
is_supported_review_status status =
    str_eq status review_status_pending
    || str_eq status review_status_approved
    || str_eq status review_status_rejected
    || str_eq status review_status_mistake
    || str_eq status review_status_completed

-- `normalizeReviewStatus`.
unfoldable pub normalize_review_status : String → Result ReviewStatus
normalize_review_status status =
    let trimmed = trim_space status in
    if str_eq trimmed ""
    then ok review_status_pending
    else if is_supported_review_status trimmed
    then ok trimmed
    else err (invalid "status must be pending, approved, rejected, mistake, or completed")

-- `encoding/json` and `base64.RawURLEncoding` on cursors.
pub record CursorCodec : Type 0 where
  pub marshal : ReviewCaseCursor → Result String
  pub unmarshal : String → Result ReviewCaseCursor
  pub encode_to_string : String → String
  pub decode_string : String → Result String

-- The test behind `json.Unmarshal`.
abbrev pub checked_cursor : ReviewStatus → Result ReviewCaseCursor → Result ReviewCaseCursor
checked_cursor expected (err e) = err (invalid "cursor is invalid")
checked_cursor expected (ok cursor) =
    if not (cursor.version == review_case_cursor_version)
      || not (str_eq cursor.status expected)
      || cursor.id == 0
      || is_zero_time cursor.reviewed_at
    then err (invalid "cursor is invalid")
    else ok cursor

module _ (codec : CursorCodec) where
  -- `encodeReviewCaseCursor`.
  unfoldable pub encode_review_case_cursor : ReviewCaseCursor → Result String
  encode_review_case_cursor cursor =
      let failed = internal "failed to encode review history cursor" in
      if not (cursor.version == review_case_cursor_version)
        || str_eq cursor.status ""
        || cursor.id == 0
        || is_zero_time cursor.reviewed_at
      then fail failed
      else elim (codec.marshal cursor) [
        | ok payload ↦ ok (codec.encode_to_string payload)
        | err e ↦ fail (with_details failed (error_text e))
      ]

  -- `decodeReviewCaseCursor`.
  unfoldable pub decode_review_case_cursor : String → ReviewStatus → Result ReviewCaseCursor
  decode_review_case_cursor value expected = elim (codec.decode_string value) [
    | err e ↦ err (invalid "cursor is invalid")
    | ok payload ↦ checked_cursor expected (codec.unmarshal payload)
  ]

  abbrev cursor_filter : String → ReviewStatus → Result (Option ReviewCaseCursor)
  cursor_filter cursor status =
      if str_eq cursor ""
      then ok none
      else do value ← decode_review_case_cursor cursor status; ok (some value)

  -- `normalizeReviewCaseFilter`.
  unfoldable pub normalize_review_case_filter : String → String → String → Result ReviewCaseFilter
  normalize_review_case_filter status limit cursor = do
    review_status ← normalize_review_status status
    if str_eq review_status review_status_pending
        then (do
          reject_if (not (str_eq (trim_space limit) "") || not (str_eq (trim_space cursor) ""))
              (invalid "limit and cursor are only supported for completed review history")
          ok (record { status = review_status; limit = 0; cursor = none }))
        else do
          limit' ← normalize_list_limit (trim_space limit) default_list_limit max_list_limit
          cursor' ← cursor_filter (trim_space cursor) review_status
          ok (record { status = review_status; limit = limit'; cursor = cursor' })
