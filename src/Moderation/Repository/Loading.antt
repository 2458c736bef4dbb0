-- ===== src/Moderation/Repository/Loading.antt =====
-- internal/moderation/repository.go: the connection, errors, and loading of rows by request.
use hate_sentry.Base.{
  ℕ, String, Bool, true, false, ◌&&◌, ◌||◌, ◌==◌, Option, none, some, List, [], ◌∷◌, str_eq,
  contains, insert,
}
use hate_sentry.Base.Text.{has_text}
use hate_sentry.Errors.{
  Error, Frame, app, mysql, frames, error_text, Result, ok, fail, configuration_error,
  record_not_found_error,
}
use hate_sentry.Exec.{Exec, pure, require, ◌>>=◌}
use hate_sentry.Models.{ModerationRequest, ModerationResult, ReviewCase}
use hate_sentry.Database.{Database, Query, no_order, report}

-- `r == nil || r.db == nil`.
abbrev pub connected : {W : Type 0} → Option (Database W) → Exec W (Database W)
connected db = require db (configuration_error "moderation database is not configured")

-- `errors.As(err, &appErr)`, with what stands below it in the chain.
abbrev pub app_error_chain : List Frame → Option Error
app_error_chain [] = none
app_error_chain (app a ∷ rest) = some (record { own = app a; causes = rest })
app_error_chain (_ ∷ rest) = app_error_chain rest

-- `errors.As(err, &mysqlErr)`.
abbrev mysql_number : List Frame → Option ℕ
mysql_number [] = none
mysql_number (mysql number message ∷ rest) = some number
mysql_number (_ ∷ rest) = mysql_number rest

abbrev duplicate_text : String → Bool
duplicate_text message =
    has_text message "duplicate entry"
    || has_text message "unique constraint"
    || has_text message "duplicate key"

-- `isDuplicateKeyError`.
unfoldable pub is_duplicate_key_error : (String → String) → Error → Bool
unfolding has_text
is_duplicate_key_error to_lower e = elim (mysql_number (frames e)) [
  | some number ↦ number == 1062
  | none ↦ duplicate_text (to_lower (error_text e))
]

-- A row that must be there: an error of the database under one name, a missing row under another.
abbrev pub found_or : {A : Type 0} → String → Option A → Result A
found_or message none = fail (record_not_found_error message)
found_or message (some a) = ok a

abbrev pub equals_id : ℕ → Option ℕ → Bool
equals_id id none = false
equals_id id (some k) = k == id

-- `loadModerationRequestsByID`, `loadModerationResultsByID`, `loadReviewCasesByRequestID`: of rows
-- with one request id, the last one stays in the map.
abbrev by_request_id : {A : Type 0} → (A → String) → List A → List (String × A) → List (String × A)
by_request_id key [] table = table
by_request_id key (row ∷ rows) table = by_request_id key rows (insert (key row) row table)

abbrev with_ids : {A : Type 0} → (A → String) → List String → Query A
with_ids key request_ids = record {
  matches = λ row. contains (key row) request_ids;
  before = no_order;
  limit = none;
}

abbrev same_client : Option ℕ → Option ℕ → Bool
same_client none none = true
same_client none (some k) = false
same_client (some id) row_client = equals_id id row_client

module _ {W : Type 0} (db : Database W) where
  unfoldable pub load_moderation_requests_by_id :
      List String → Exec W (List (String × ModerationRequest))
  unfolding insert
  load_moderation_requests_by_id request_ids = do
    requests ←
        report "failed to load moderation requests"
          (db.requests.find (with_ids (λ row. row.request_id) request_ids))
    pure (by_request_id (λ row. row.request_id) requests [])

  unfoldable pub load_moderation_results_by_id :
      List String → Exec W (List (String × ModerationResult))
  unfolding insert
  load_moderation_results_by_id request_ids = do
    results ←
        report "failed to load moderation results"
          (db.results.find (with_ids (λ row. row.request_id) request_ids))
    pure (by_request_id (λ row. row.request_id) results [])

  unfoldable pub load_review_cases_by_request_id : List String → Exec W (List (String × ReviewCase))
  unfolding insert
  load_review_cases_by_request_id request_ids = do
    review_cases ←
        report "failed to load review cases"
          (db.review_cases.find (with_ids (λ row. row.request_id) request_ids))
    pure (by_request_id (λ row. row.request_id) review_cases [])

  -- `loadReviewCaseForRequest`.
  unfoldable pub load_review_case_for_request : ModerationRequest → Exec W (Option ReviewCase)
  load_review_case_for_request request = report "failed to load review case" (
      db.review_cases.first (λ row.
        (row.user_id == request.user_id)
        && str_eq row.request_id request.request_id
        && same_client request.client_id row.client_id))
