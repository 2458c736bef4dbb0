-- ===== src/Errors/Response.antt =====
-- internal/errors/handler.go: what a client is told of an error.
--
-- `logError` does nothing. The trace id of the context is `none` when there is none, or no text.
use hate_sentry.Base.{ℕ, String, ◌≡◌, ◌⊎◌, inr, Option, none, some, str_eq, if◌then◌else◌, arith}
use hate_sentry.Errors.{
  AppError, Error, Frame, app, plain, delivery, deadline_exceeded, network, dns, mysql, ErrorCode,
  internal_error, code_text, ErrorSeverity, error_text, internal, with_details, with_trace_id,
  default_http_status,
}
use hate_sentry.Errors.Status.{IsErrorStatus, default_http_status-IsErrorStatus}

pub record ErrorResponse : Type 0 where
  pub error : String
  pub code : ErrorCode
  pub message : String
  pub details : String
  pub severity : Option ErrorSeverity
  pub trace_id : String
  pub timestamp : String

-- `c.JSON(status, response)`.
pub record Sent : Type 0 where
  pub http_status : ℕ
  pub response : ErrorResponse

abbrev text_or_empty : Option String → String
text_or_empty none = ""
text_or_empty (some s) = s

-- `getCurrentTimestamp`.
abbrev current_timestamp : String
current_timestamp = ""

-- The frame does not set a status, or sets one that tells of an error.
abbrev pub SetsStatus : Frame → Type 0
SetsStatus (app e) = (e.http_status ≡ 0) ⊎ IsErrorStatus e.http_status
SetsStatus _ = Unit

abbrev pub SetsErrorStatus : Option Error → Type 0
SetsErrorStatus none = Unit
SetsErrorStatus (some e) = SetsStatus e.own

module _ (trace_id : Option String) where
  -- `getTraceID`.
  unfoldable pub get_trace_id : String
  get_trace_id = text_or_empty trace_id

  -- `sendErrorResponse`, which `RespondWithError` is.
  unfoldable pub send_error_response : AppError → Sent
  unfolding get_trace_id default_http_status
  send_error_response e = record {
    http_status = default_http_status e;
    response = record {
      error = code_text e.code;
      code = e.code;
      message = e.message;
      details = e.details;
      severity = some e.severity;
      trace_id = if str_eq e.trace_id "" then get_trace_id else e.trace_id;
      timestamp = current_timestamp;
    };
  }

  -- `sendGenericErrorResponse`.
  unfoldable pub send_generic_error_response : Error → Sent
  unfolding send_error_response get_trace_id
  send_generic_error_response e = send_error_response (
      with_trace_id (with_details (internal "An unexpected error occurred") (error_text e))
        get_trace_id)

  abbrev send_frame : Frame → Error → Sent
  send_frame (app own) e = send_error_response own
  send_frame _ e = send_generic_error_response e

  -- `Handle`.
  unfoldable pub handle : Option Error → Sent
  unfolding send_error_response send_generic_error_response
  handle (some e) = send_frame e.own e
  handle none = record {
    http_status = 500;
    response = record {
      error = "Unknown error";
      code = internal_error;
      message = "An unknown error occurred";
      details = "";
      severity = none;
      trace_id = "";
      timestamp = current_timestamp;
    };
  }

  abbrev recovered : Sent
  recovered = send_error_response (
      with_trace_id (with_details (internal "Internal server error") "Recovered from panic")
        get_trace_id)

  -- `RecoveryMiddleware`: the answer to a request whose handler panics.
  unfoldable pub recovery_middleware : Option Sent → Sent
  recovery_middleware (some answer) = answer
  recovery_middleware none = recovered

  send_error_response-IsErrorStatus :
      (e : AppError)
      → (e.http_status ≡ 0) ⊎ IsErrorStatus e.http_status
      → IsErrorStatus ((send_error_response e).http_status)
  unfolding send_error_response
  send_error_response-IsErrorStatus e h = default_http_status-IsErrorStatus e h

  generic-IsErrorStatus : (e : Error) → IsErrorStatus ((send_generic_error_response e).http_status)
  unfolding send_generic_error_response internal
  generic-IsErrorStatus e =
      send_error_response-IsErrorStatus
        (with_trace_id (with_details (internal "An unexpected error occurred") (error_text e))
          get_trace_id)
        (inr (record { low = omega arith; high = omega arith }))

  frame-IsErrorStatus :
      (frame : Frame) (e : Error)
      → SetsStatus frame
      → IsErrorStatus ((send_frame frame e).http_status)
  frame-IsErrorStatus (app own) e h = send_error_response-IsErrorStatus own h
  frame-IsErrorStatus (plain s) e h = generic-IsErrorStatus e
  frame-IsErrorStatus (delivery n s) e h = generic-IsErrorStatus e
  frame-IsErrorStatus deadline_exceeded e h = generic-IsErrorStatus e
  frame-IsErrorStatus (network b s) e h = generic-IsErrorStatus e
  frame-IsErrorStatus (dns b s) e h = generic-IsErrorStatus e
  frame-IsErrorStatus (mysql n s) e h = generic-IsErrorStatus e

  -- Whatever error a handler is given, none included, the client is answered with a status of 400
  -- to 599, when an `AppError` that sets its status sets such a one.
  pub handle-IsErrorStatus :
      (e : Option Error) → SetsErrorStatus e → IsErrorStatus ((handle e).http_status)
  unfolding handle
  handle-IsErrorStatus none h = record { low = omega arith; high = omega arith }
  handle-IsErrorStatus (some e) h = frame-IsErrorStatus e.own e h
