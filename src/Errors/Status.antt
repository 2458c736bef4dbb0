-- ===== src/Errors/Status.antt =====
-- internal/errors/app_errors.go: the HTTP statuses that errors are answered with.
use hate_sentry.Base.{ℕ, ◌≤◌, ◌==◌, Bool-cases, ◌≡◌, ◌⊎◌, inl, inr, arith}
use hate_sentry.Errors.{AppError, ErrorCode, status_of_code, default_http_status}

-- A status that tells the caller of an error, or none that is set.
pub record IsErrorStatus (status : ℕ) : Type 0 where
  pub low : 400 ≤ status
  pub high : status ≤ 599

status_of_code-IsErrorStatus : (code : ErrorCode) → IsErrorStatus (status_of_code code)
status_of_code-IsErrorStatus code = record {
  low = ground (arith, status_of_code);
  high = ground (arith, status_of_code);
}

-- An error whose HTTP status is not set, or is one of 400 to 599, is answered with a status of 400 to
-- 599, whatever its code.
pub default_http_status-IsErrorStatus :
    (e : AppError)
    → (e.http_status ≡ 0) ⊎ IsErrorStatus e.http_status
    → IsErrorStatus (default_http_status e)
unfolding default_http_status
default_http_status-IsErrorStatus e (inl h) = rw h (status_of_code-IsErrorStatus e.code)
default_http_status-IsErrorStatus e (inr h) = elim (Bool-cases (e.http_status == 0)) [
  | inl unset ↦ rw unset (status_of_code-IsErrorStatus e.code)
  | inr set ↦ rw set h
]
