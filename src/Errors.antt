-- ===== src/Errors.antt =====
-- internal/errors/app_errors.go: the application's errors, and Go's chains of wrapped errors.
--
-- An `error` value is the chain that `Unwrap` walks: its own frame, then the frames of its causes.
-- The `Cause` field of an `AppError` is the rest of the chain. A pointer that may be nil is an
-- `Option`; a method call on a nil `*AppError` is a panic, which is `none` too.
mod Codes
pub mod Status
pub mod Chain
pub mod Response
unfoldable pub use Codes.*
use hate_sentry.Base.{
  ◌≡◌, ◌⊎◌, inl, inr, refl, ℕ, String, Bool, true, false, Option, none, some, List, [], ◌∷◌, str_eq,
  ◌==◌, if◌then◌else◌,
}
use Prim.Native.String.{◌++◌}

pub record AppError : Type 0 where
  pub code : ErrorCode
  pub message : String
  pub details : String
  pub http_status : ℕ
  pub severity : ErrorSeverity
  pub trace_id : String

-- One error of a chain, as far as the program tells errors apart: its own, those of
-- `fmt.Errorf` and of libraries, by their text, the `DeliveryError` of a webhook with its status
-- and message, `context.DeadlineExceeded`, a `net.Error` with its `Timeout()` and text, and a
-- `net.DNSError`, and a `mysql.MySQLError` with its number and text.
pub data Frame : Type 0 where
  app : AppError → Frame
  plain : String → Frame
  delivery : ℕ → String → Frame
  deadline_exceeded : Frame
  network : Bool → String → Frame
  dns : Bool → String → Frame
  mysql : ℕ → String → Frame

pub record Error : Type 0 where
  pub own : Frame
  pub causes : List Frame

abbrev pub frames : Error → List Frame
frames e = e.own ∷ e.causes

abbrev pub plain_error : String → Error
plain_error message = record { own = plain message; causes = [] }

abbrev pub app_error_text : AppError → String
app_error_text e =
    if str_eq e.details ""
    then "[" ++ code_text e.code ++ "] " ++ e.message
    else "[" ++ code_text e.code ++ "] " ++ e.message ++ ": " ++ e.details

-- `err.Error()`.
pub error_text : Error → String
error_text e = elim e.own [
  | app a ↦ app_error_text a
  | plain s ↦ s
  | delivery _ message ↦ message
  | deadline_exceeded ↦ "context deadline exceeded"
  | network _ s ↦ s
  | dns _ s ↦ s
  | mysql _ s ↦ s
]

abbrev pub first_app_error : List Frame → Option AppError
first_app_error [] = none
first_app_error (app a ∷ rest) = some a
first_app_error (_ ∷ rest) = first_app_error rest

-- `errors.As(err, &appErr)`: the first `*AppError` of the chain.
abbrev pub as_app_error : Error → Option AppError
as_app_error e = first_app_error (frames e)

unfoldable pub new : ErrorCode → String → AppError
unfolding get_severity
new code message = record {
  code = code;
  message = message;
  details = "";
  http_status = 0;
  severity = get_severity code;
  trace_id = "";
}

abbrev pub with_http_status : AppError → ℕ → AppError
with_http_status e status = record e { http_status = status }

abbrev pub with_details : AppError → String → AppError
with_details e details = record e { details = details }

abbrev pub with_trace_id : AppError → String → AppError
with_trace_id e trace_id = record e { trace_id = trace_id }

-- An `AppError` with no cause, as an `error`.
abbrev pub raised : AppError → Error
raised e = record { own = app e; causes = [] }

-- `appErr, ok := err.(*AppError)`: the assertion reads the outermost error only.
abbrev wrap_frame : Frame → Error → ErrorCode → String → Error
wrap_frame (app inner) err code message = record {
  own = app (record (new code message) { http_status = inner.http_status });
  causes = frames err;
}
wrap_frame _ err code message = record {
  own = app (with_details (new code message) (error_text err));
  causes = frames err;
}

unfoldable pub wrap : Option Error → ErrorCode → String → Option Error
unfolding new error_text
wrap none code message = none
wrap (some err) code message = some (wrap_frame err.own err code message)

abbrev set_status_frame : Frame → ℕ → Frame
set_status_frame (app e) status = app (with_http_status e status)
set_status_frame frame status = frame

-- `WithHTTPStatus` on what `Wrap` returned: on a nil pointer it writes through nil.
abbrev set_status : Option Error → ℕ → Option Error
set_status none status = none
set_status (some e) status = some (record e { own = set_status_frame e.own status })

module _ (message : String) where
  unfoldable pub internal : AppError
  unfolding new
  internal = with_http_status (new internal_error message) 500

  unfoldable pub bad_request_error : AppError
  unfolding new
  bad_request_error = with_http_status (new bad_request message) 400

  unfoldable pub unauthorized_error : AppError
  unfolding new
  unauthorized_error = with_http_status (new unauthorized message) 401

  unfoldable pub forbidden_error : AppError
  unfolding new
  forbidden_error = with_http_status (new forbidden message) 403

  unfoldable pub not_found_error : AppError
  unfolding new
  not_found_error = with_http_status (new not_found message) 404

  unfoldable pub conflict_error : AppError
  unfolding new
  conflict_error = with_http_status (new conflict message) 409

  unfoldable pub validation_error : AppError
  unfolding new
  validation_error = with_http_status (new validation message) 400

  unfoldable pub record_not_found_error : AppError
  unfolding new
  record_not_found_error = with_http_status (new record_not_found message) 404

  unfoldable pub duplicate_record_error : AppError
  unfolding new
  duplicate_record_error = with_http_status (new duplicate_record message) 409

  unfoldable pub rate_limit_exceeded : AppError
  unfolding new
  rate_limit_exceeded = with_http_status (new rate_limit message) 429

  unfoldable pub timeout_error : AppError
  unfolding new
  timeout_error = with_http_status (new timeout message) 504

  unfoldable pub configuration_error : AppError
  unfolding new
  configuration_error = with_http_status (new internal_error message) 500

  unfoldable pub invalid_credentials_error : AppError
  unfolding new
  invalid_credentials_error = with_http_status (new invalid_creds message) 401

  unfoldable pub invalid_token_error : AppError
  unfolding new
  invalid_token_error = with_http_status (new invalid_token message) 401

  unfoldable pub expired_token_error : AppError
  unfolding new
  expired_token_error = with_http_status (new expired_token message) 401

  unfoldable pub not_implemented_error : AppError
  unfolding new
  not_implemented_error = with_http_status (new internal_error message) 501

module _ (err : Option Error) (message : String) where
  unfoldable pub wrapped_database_error : Option Error
  unfolding wrap
  wrapped_database_error = set_status (wrap err database_error message) 500

  unfoldable pub wrapped_detection_failed : Option Error
  unfolding wrap
  wrapped_detection_failed = set_status (wrap err detection_failed message) 500

  unfoldable pub wrapped_ai_provider_error : Option Error
  unfolding wrap
  wrapped_ai_provider_error = set_status (wrap err ai_provider_error message) 500

  unfoldable pub wrapped_cache_error : Option Error
  unfolding wrap
  wrapped_cache_error = wrap err cache_error message

  unfoldable pub wrapped_queue_error : Option Error
  unfolding wrap
  wrapped_queue_error = set_status (wrap err queue_error message) 500

-- The only one that tests for nil itself.
unfoldable pub external_service_error : Option Error → String → Option Error
unfolding wrap new
external_service_error none message =
    some (raised (with_http_status (new service_unavailable message) 502))
external_service_error (some err) message =
    set_status (wrap (some err) service_unavailable message) 502

unfoldable pub default_http_status : AppError → ℕ
default_http_status e = if e.http_status == 0 then status_of_code e.code else e.http_status

-- A Go pair `(value, error)`: the value when the error is nil.
pub data Result {ℓ} (A : Type ℓ) : Type ℓ where
  err : Error → Result A
  ok : A → Result A

abbrev pub fail {ℓ} : {A : Type ℓ} → AppError → Result A
fail e = err (raised e)

-- `if c {return e }`.
abbrev pub reject_if : Bool → Error → Result (Unit {0})
reject_if true e = err e
reject_if false e = ok tt

module _ {ℓ} {B : Type ℓ} where
  infixl 5 ◌>>=◌ ◌>>◌
  abbrev pub ◌>>=◌ {κ} : {A : Type κ} → Result A → (A → Result B) → Result B
  err failure >>= next = err failure
  ok value >>= next = next value

  abbrev pub ◌>>◌ : Result (Unit {0}) → Result B → Result B
  checked >> next = checked >>= λ done. next

  -- Inversion of a successful bind.
  pub >>=-eq-ok {κ} :
      {A : Type κ} (first : Result A) (next : A → Result B) {result : B}
      → (first >>= next) ≡ ok result
      → (value : A) × (first ≡ ok value) × (next value ≡ ok result)
  >>=-eq-ok (err failure) next h = cc
  >>=-eq-ok (ok value) next h = (value, refl, h)

-- What passes a guard.
pub reject_if-ok {ℓ} :
    {B : Type ℓ} (b : Bool) (e : Error) (next : Result B) {result : B}
    → (reject_if b e >> next) ≡ ok result
    → (b ≡ false) × (next ≡ ok result)
reject_if-ok true e next h = cc
reject_if-ok false e next h = (refl, h)

-- To split on what a call returned.
pub Result-cases {ℓ} :
    {A : Type ℓ} (result : Result A)
    → ((value : A) × (result ≡ ok value)) ⊎ ((failure : Error) × (result ≡ err failure))
Result-cases (err failure) = inr (failure, refl)
Result-cases (ok value) = inl (value, refl)

pub ok-injective {ℓ} : {A : Type ℓ} {a b : A} → ◌≡◌ {A = Result A} (ok a) (ok b) → a ≡ b
ok-injective h = cc
