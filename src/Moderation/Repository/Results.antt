-- ===== src/Moderation/Repository/Results.antt =====
-- internal/moderation/repository.go: checks are saved, and results and the history are read.
use hate_sentry.Base.{
  ℕ, String, Bool, true, ◌&&◌, ◌==◌, ltb, Option, none, some, List, [], ◌∷◌, map, str_eq, lookup,
  if◌then◌else◌,
}
use hate_sentry.Errors.{
  Error, frames, Result, ok, err, fail, conflict_error, record_not_found_error,
}
use hate_sentry.Exec.{Exec, pure, lift, attempt, ◌>>=◌}
use hate_sentry.Models.{ClientApplication, ModerationRequest, ModerationResult, ReviewCase}
use hate_sentry.Database.{Database, Query, report, transaction, database_error_of}
use hate_sentry.Moderation.Filters.{HistoryFilter}
use hate_sentry.Moderation.Service.{StoredResult, CheckRows}
use hate_sentry.Moderation.Repository.Loading.{
  connected, app_error_chain, is_duplicate_key_error, found_or, equals_id,
  load_moderation_requests_by_id, load_review_cases_by_request_id, load_review_case_for_request,
}

abbrev pub created_request : (String → String) → Result ModerationRequest → Result ModerationRequest
created_request to_lower (ok request) = ok request
created_request to_lower (err e) =
    if is_duplicate_key_error to_lower e
    then fail (conflict_error "Moderation request already exists for this client external_id")
    else err e

abbrev save_failed : Error → Option Error → Error
save_failed e none = database_error_of e "failed to save moderation records"
save_failed e (some app_error) = app_error

abbrev pub saved_rows : Result CheckRows → Result CheckRows
saved_rows (ok rows) = ok rows
saved_rows (err e) = err (save_failed e (app_error_chain (frames e)))

abbrev optional_client : Option ℕ → Option ℕ → Bool
optional_client none row_client = true
optional_client (some id) row_client = equals_id id row_client

abbrev pub limit_of : ℕ → Option ℕ
limit_of limit = if limit == 0 then none else some limit

-- The loop of `ListHistory`.
abbrev pub history_items :
    List (String × ModerationRequest)
    → List (String × ReviewCase)
    → List ModerationResult
    → Result (List StoredResult)
history_items requests cases [] = ok []
history_items requests cases (result ∷ results) =
    let rest = history_items requests cases results in
    elim (lookup result.request_id requests) [
      | none ↦ fail (record_not_found_error "Moderation request not found")
      | some request ↦ elim rest [
        | err e ↦ err e
        | ok items ↦ ok (
            record {
              request = request;
              result = result;
              review_case = lookup result.request_id cases;
            }
            ∷ items)
      ]
    ]

abbrev pub create_case : {W : Type 0} → Database W → Option ReviewCase → Exec W (Option ReviewCase)
create_case db none = pure none
create_case db (some review_case) = do
  created ← db.review_cases.create review_case
  pure (some created)

module _ {W : Type 0} (to_lower : String → String) where
  -- The body of the transaction of `SaveCheck`.
  abbrev pub create_rows : Database W → CheckRows → Exec W CheckRows
  create_rows db rows = do
    attempted ← attempt (db.requests.create rows.request)
    request ← lift (created_request to_lower attempted)
    result ← db.results.create rows.result
    review_case ← create_case db rows.review_case
    pure (record { request = request; result = result; review_case = review_case })

  -- `SaveCheck`: the rows come back with their ids and times.
  unfoldable pub save_check : Option (Database W) → CheckRows → Exec W CheckRows
  save_check connection rows = do
    db ← connected connection
    saved ← attempt (transaction db (create_rows db rows))
    lift (saved_rows saved)

module _ {W : Type 0} (connection : Option (Database W)) where
  abbrev first_request : Database W → (ModerationRequest → Bool) → Exec W ModerationRequest
  first_request db matches = do
    found ← report "failed to retrieve moderation request" (db.requests.first matches)
    lift (found_or "Moderation result not found" found)

  abbrev first_result : Database W → (ModerationResult → Bool) → Exec W ModerationResult
  first_result db matches = do
    found ← report "failed to retrieve moderation result" (db.results.first matches)
    lift (found_or "Moderation result not found" found)

  -- `GetResult`, with `userScopedResultQuery`.
  unfoldable pub get_result : ℕ → String → Exec W StoredResult
  unfolding load_review_case_for_request
  get_result user_id request_id = do
    db ← connected connection
    request ← first_request db (λ row. (row.user_id == user_id) && str_eq row.request_id request_id)
    result ← first_result db (λ row. (row.user_id == user_id) && str_eq row.request_id request_id)
    review_case ← load_review_case_for_request db request
    pure (record { request = request; result = result; review_case = review_case })

  -- `GetResultForClient`, with `clientScopedResultQuery`.
  unfoldable pub get_result_for_client : ℕ → ℕ → String → Exec W StoredResult
  unfolding load_review_case_for_request
  get_result_for_client user_id client_id request_id = do
    db ← connected connection
    request ← first_request db (λ row.
        (row.user_id == user_id)
        && equals_id client_id row.client_id
        && str_eq row.request_id request_id)
    result ← first_result db (λ row.
        (row.user_id == user_id)
        && equals_id client_id row.client_id
        && str_eq row.request_id request_id)
    review_case ← load_review_case_for_request db request
    pure (record { request = request; result = result; review_case = review_case })

  abbrev found_result :
      Database W → ModerationRequest → Option ModerationResult → Exec W (Option StoredResult)
  found_result db request none = pure none
  found_result db request (some result) = do
    review_case ← load_review_case_for_request db request
    pure (some (record { request = request; result = result; review_case = review_case }))

  abbrev found_request : Database W → Option ModerationRequest → Exec W (Option StoredResult)
  found_request db none = pure none
  found_request db (some request) = do
    result ← report "failed to retrieve moderation result" (
        db.results.first
          (λ row. (row.user_id == request.user_id) && str_eq row.request_id request.request_id))
    found_result db request result

  -- `FindResultByClientExternalID`, with `clientExternalIDQuery`: the newest request.
  unfoldable pub find_result_by_client_external_id : ℕ → String → Exec W (Option StoredResult)
  unfolding load_review_case_for_request
  find_result_by_client_external_id client_id external_id = do
    db ← connected connection
    request ← report "failed to retrieve moderation request" (
        db.requests.first_by (record {
          matches = λ row. equals_id client_id row.client_id && str_eq row.external_id external_id;
          before = λ a b. ltb b.created_at a.created_at;
          limit = none;
        }))
    found_request db request

  -- `moderationHistoryQuery`, run.
  abbrev history_results : Database W → HistoryFilter → Exec W (List ModerationResult)
  history_results db filter =
      let query : Query ModerationResult = record {
        matches = λ row.
            (if str_eq filter.decision "" then true else str_eq row.decision filter.decision)
            && optional_client filter.client_id row.client_id;
        before = λ a b. ltb b.created_at a.created_at;
        limit = limit_of filter.limit;
      } in
      if str_eq filter.external_id ""
      then db.results.find query
      else db.find_results_joined query (λ row. str_eq row.external_id filter.external_id)

  abbrev history_of : Database W → List ModerationResult → Exec W (List StoredResult)
  history_of db [] = pure []
  history_of db (result ∷ results) = do
    let request_ids = map (λ row. ModerationResult.request_id row) (result ∷ results)
    requests ← load_moderation_requests_by_id db request_ids
    cases ← load_review_cases_by_request_id db request_ids
    lift (history_items requests cases (result ∷ results))

  -- `ListHistory`.
  unfoldable pub list_history : HistoryFilter → Exec W (List StoredResult)
  unfolding load_moderation_requests_by_id load_review_cases_by_request_id lookup
  list_history filter = do
    db ← connected connection
    results ← report "failed to list moderation history" (history_results db filter)
    history_of db results

  -- `GetClient`: only an active client is found.
  unfoldable pub get_client : ℕ → Exec W (Option ClientApplication)
  get_client client_id = do
    db ← connected connection
    report "failed to retrieve webhook client"
        (db.clients.first (λ row. (row.id == client_id) && str_eq row.status "active"))
