-- ===== src/Errors/Codes.antt =====
-- internal/errors/app_errors.go: the error codes, their texts, severities and default statuses.
use hate_sentry.Base.{ℕ, String}

pub data ErrorCode : Type 0 where
  internal_error bad_request unauthorized forbidden not_found conflict : ErrorCode
  validation rate_limit : ErrorCode
  invalid_token expired_token invalid_creds account_locked account_inactive : ErrorCode
  database_error record_not_found duplicate_record connection_error : ErrorCode
  detection_failed content_required image_required invalid_content : ErrorCode
  ai_provider_error model_unavailable : ErrorCode
  cache_error cache_miss redis_unavailable : ErrorCode
  queue_error queue_full publish_failed : ErrorCode
  external_service timeout service_unavailable : ErrorCode

-- The text of a code.
pub code_text : ErrorCode → String
code_text internal_error = "INTERNAL_ERROR"
code_text bad_request = "BAD_REQUEST"
code_text unauthorized = "UNAUTHORIZED"
code_text forbidden = "FORBIDDEN"
code_text not_found = "NOT_FOUND"
code_text conflict = "CONFLICT"
code_text validation = "VALIDATION_ERROR"
code_text rate_limit = "RATE_LIMIT_EXCEEDED"
code_text invalid_token = "INVALID_TOKEN"
code_text expired_token = "EXPIRED_TOKEN"
code_text invalid_creds = "INVALID_CREDENTIALS"
code_text account_locked = "ACCOUNT_LOCKED"
code_text account_inactive = "ACCOUNT_INACTIVE"
code_text database_error = "DATABASE_ERROR"
code_text record_not_found = "RECORD_NOT_FOUND"
code_text duplicate_record = "DUPLICATE_RECORD"
code_text connection_error = "DATABASE_CONNECTION_ERROR"
code_text detection_failed = "DETECTION_FAILED"
code_text content_required = "CONTENT_REQUIRED"
code_text image_required = "IMAGE_REQUIRED"
code_text invalid_content = "INVALID_CONTENT"
code_text ai_provider_error = "AI_PROVIDER_ERROR"
code_text model_unavailable = "MODEL_UNAVAILABLE"
code_text cache_error = "CACHE_ERROR"
code_text cache_miss = "CACHE_MISS"
code_text redis_unavailable = "REDIS_UNAVAILABLE"
code_text queue_error = "QUEUE_ERROR"
code_text queue_full = "QUEUE_FULL"
code_text publish_failed = "PUBLISH_FAILED"
code_text external_service = "EXTERNAL_SERVICE_ERROR"
code_text timeout = "TIMEOUT"
code_text service_unavailable = "SERVICE_UNAVAILABLE"

pub data ErrorSeverity : Type 0 where
  low medium high critical : ErrorSeverity

unfoldable pub get_severity : ErrorCode → ErrorSeverity
get_severity internal_error = critical
get_severity database_error = critical
get_severity ai_provider_error = critical
get_severity queue_error = critical
get_severity unauthorized = high
get_severity forbidden = high
get_severity account_locked = high
get_severity bad_request = medium
get_severity validation = medium
get_severity detection_failed = medium
get_severity _ = low

-- The switch of `DefaultHTTPStatus`.
abbrev pub status_of_code : ErrorCode → ℕ
status_of_code bad_request = 400
status_of_code validation = 400
status_of_code content_required = 400
status_of_code image_required = 400
status_of_code invalid_content = 400
status_of_code unauthorized = 401
status_of_code invalid_token = 401
status_of_code expired_token = 401
status_of_code invalid_creds = 401
status_of_code forbidden = 403
status_of_code account_locked = 403
status_of_code account_inactive = 403
status_of_code rate_limit = 403
status_of_code not_found = 404
status_of_code record_not_found = 404
status_of_code conflict = 409
status_of_code duplicate_record = 409
status_of_code model_unavailable = 503
status_of_code redis_unavailable = 503
status_of_code _ = 500
