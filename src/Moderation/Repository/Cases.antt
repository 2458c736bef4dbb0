-- ===== src/Moderation/Repository/Cases.antt =====
-- internal/moderation/repository.go: review cases are listed by pages, read and finalized, and
-- everything is counted.
pub mod Final
pub mod Once
use Prim.Native.String.{◌++◌}
use hate_sentry.Base.{
  ℕ, zero, suc, ◌+◌, String, Bool, true, false, not, ◌&&◌, ◌||◌, ◌==◌, ltb, Option, none, some,
  List, [], ◌∷◌, map, length, contains, lookup, str_eq, if◌then◌else◌,
}
use hate_sentry.Errors.{
  Error, Result, ok, err, fail, raised, internal, conflict_error, record_not_found_error,
}
use hate_sentry.Exec.{Exec, pure, raise, lift, attempt, continue, ◌>>=◌, ◌>>◌}
use hate_sentry.Models.{Time, ModerationRequest, ModerationResult, ReviewCase}
use hate_sentry.Database.{Database, Table, Query, report, transaction}
use hate_sentry.Moderation.Types.{
  Decision, ReviewStatus, decision_allow, decision_block, review_status_pending,
  review_status_approved, review_status_rejected, review_status_mistake, review_status_completed,
  WebhookDeliveryStatus, webhook_delivery_succeeded, webhook_delivery_failed,
  webhook_delivery_retrying,
}
use hate_sentry.Moderation.Filters.{ReviewCaseFilter, ReviewCaseCursor, review_case_cursor_version}
use hate_sentry.Moderation.Service.{StoredReviewCase, StoredReviewCasePage, StoredStats}
use hate_sentry.Moderation.Repository.Loading.{
  connected, found_or, load_moderation_requests_by_id, load_moderation_results_by_id,
}
use hate_sentry.Moderation.Repository.Deliveries.{transaction_error}

-- `reviewed_at < ? OR (reviewed_at = ? AND id < ?)`, which no missing time satisfies.
abbrev pub after_cursor : Option ReviewCaseCursor → ReviewCase → Bool
after_cursor none row = true
after_cursor (some cursor) row = elim row.reviewed_at [
  | none ↦ false
  | some at ↦ ltb at cursor.reviewed_at || ((at == cursor.reviewed_at) && ltb row.id cursor.id)
]

abbrev is_reviewed : Option Time → Bool
is_reviewed none = false
is_reviewed (some at) = true

abbrev pub time_or_zero : Option Time → Time
time_or_zero none = 0
time_or_zero (some at) = at

-- `reviewed_at DESC, id DESC`, of rows that have been reviewed.
unfoldable pub reviewed_before : ReviewCase → ReviewCase → Bool
reviewed_before a b =
    ltb (time_or_zero b.reviewed_at) (time_or_zero a.reviewed_at)
    || ((time_or_zero a.reviewed_at == time_or_zero b.reviewed_at) && ltb b.id a.id)

-- `created_at ASC, id ASC`.
unfoldable pub created_before : ReviewCase → ReviewCase → Bool
created_before a b =
    ltb a.created_at b.created_at || ((a.created_at == b.created_at) && ltb a.id b.id)

abbrev pub has_status : ReviewStatus → ReviewCase → Bool
has_status status row =
    if str_eq status review_status_completed
    then contains row.status
        (review_status_approved ∷ review_status_rejected ∷ review_status_mistake ∷ [])
    else str_eq row.status status

-- `reviewCaseListQuery`: one row more than the limit tells whether there is a next page.
unfoldable pub review_case_list_query : ReviewCaseFilter → Query ReviewCase
unfolding reviewed_before created_before
review_case_list_query filter =
    if str_eq filter.status review_status_pending
    then record {
      matches = λ row. str_eq row.status review_status_pending;
      before = created_before;
      limit = none;
    }
    else record {
      matches = λ row.
          is_reviewed row.reviewed_at
          && has_status filter.status row
          && after_cursor filter.cursor row;
      before = reviewed_before;
      limit = if filter.limit == 0 then none else some (filter.limit + 1);
    }

abbrev pub take_cases : ℕ → List ReviewCase → List ReviewCase
take_cases zero rows = []
take_cases (suc n) [] = []
take_cases (suc n) (row ∷ rows) = row ∷ take_cases n rows

abbrev pub last_case : ReviewCase → List ReviewCase → ReviewCase
last_case row [] = row
last_case row (next ∷ rows) = last_case next rows

abbrev cursor_at : ReviewStatus → ReviewCase → Option Time → Result (Option ReviewCaseCursor)
cursor_at status last none = fail (internal "completed review case is missing reviewed_at")
cursor_at status last (some at) = ok (
    some (record {
      version = review_case_cursor_version;
      status = status;
      reviewed_at = at;
      id = last.id;
    }))

abbrev cursor_of : ReviewStatus → List ReviewCase → Result (Option ReviewCaseCursor)
cursor_of status [] = ok none
cursor_of status (row ∷ rows) =
    let last = last_case row rows in cursor_at status last last.reviewed_at

-- The page that `ListReviewCases` cuts off, and the cursor to the next one.
unfoldable pub page_of :
    ReviewCaseFilter → List ReviewCase → Result (List ReviewCase × Option ReviewCaseCursor)
page_of filter rows =
    if ltb 0 filter.limit && ltb filter.limit (length rows)
    then elim (cursor_of filter.status (take_cases filter.limit rows)) [
      | err e ↦ err e
      | ok next_cursor ↦ ok (take_cases filter.limit rows, next_cursor)
    ]
    else ok (rows, none)

-- The loop of `ListReviewCases`.
abbrev stored_case :
    ReviewCase → Option ModerationRequest → Option ModerationResult → Result StoredReviewCase
stored_case row none result = fail (record_not_found_error "Moderation request not found")
stored_case row (some request) none = fail (record_not_found_error "Moderation result not found")
stored_case row (some request) (some result) =
    ok (record { review_case = row; request = request; result = result })

abbrev add_case :
    Result StoredReviewCase → Result (List StoredReviewCase) → Result (List StoredReviewCase)
add_case (err e) rest = err e
add_case (ok stored) (err e) = err e
add_case (ok stored) (ok rest) = ok (stored ∷ rest)

unfoldable pub stored_cases :
    List (String × ModerationRequest)
    → List (String × ModerationResult)
    → List ReviewCase
    → Result (List StoredReviewCase)
unfolding lookup
stored_cases requests results [] = ok []
stored_cases requests results (row ∷ rows) =
    add_case (stored_case row (lookup row.request_id requests) (lookup row.request_id results))
      (stored_cases requests results rows)

-- What `FinalizeReviewCase` sets.
unfoldable pub finalized : ℕ → ReviewStatus → Decision → String → Time → ReviewCase → ReviewCase
finalized reviewer_id status final_decision notes reviewed_at row = record row {
  status = status;
  reviewer_id = some reviewer_id;
  final_decision = final_decision;
  review_notes = notes;
  reviewed_at = some reviewed_at;
}

-- The test of a locked row.
abbrev pub still_pending : ReviewCase → Result ReviewCase
still_pending row =
    if not (str_eq row.status review_status_pending)
    then fail (conflict_error "Review case is already finalized")
    else ok row

-- One query of `statsCountQueries`, run.
abbrev counted : {W : Type 0} → String → Exec W ℕ → Exec W ℕ
counted name count = report ("failed to count " ++ name) count

module _ {W : Type 0} (db : Database W) where
  -- `loadStoredReviewCase`.
  unfoldable pub load_stored_review_case : ReviewCase → Exec W StoredReviewCase
  load_stored_review_case row = do
    found ←
        report "failed to retrieve moderation request" (
          db.requests.first (λ r. (r.user_id == row.user_id) && str_eq r.request_id row.request_id))
    request ← lift (found_or "Moderation request not found" found)
    found_result ←
        report "failed to retrieve moderation result"
          (db.results.first (λ r. (r.user_id == row.user_id) && str_eq r.request_id row.request_id))
    result ← lift (found_or "Moderation result not found" found_result)
    pure (record { review_case = row; request = request; result = result })

  abbrev load_page : List ReviewCase × Option ReviewCaseCursor → Exec W StoredReviewCasePage
  load_page (rows, next_cursor) = do
    let request_ids = map (λ row. ReviewCase.request_id row) rows
    requests ← load_moderation_requests_by_id db request_ids
    results ← load_moderation_results_by_id db request_ids
    items ← lift (stored_cases requests results rows)
    pure (record { items = items; next_cursor = next_cursor })

  abbrev page_from : ReviewCaseFilter → List ReviewCase → Exec W StoredReviewCasePage
  page_from filter [] = pure (record { items = []; next_cursor = none })
  page_from filter (row ∷ rows) = do page ← lift (page_of filter (row ∷ rows)); load_page page

  -- The body of the transaction of `FinalizeReviewCase`.
  unfoldable pub finalize_row :
      ℕ → ℕ → ReviewStatus → Decision → String → Time → Exec W StoredReviewCase
  unfolding finalized load_stored_review_case
  finalize_row case_id reviewer_id status final_decision notes reviewed_at = do
    found ← db.review_cases.first (λ row. row.id == case_id)
    row ← lift (found_or "Review case not found" found)
    pending ← lift (still_pending row)
    saved ←
        db.review_cases.save (finalized reviewer_id status final_decision notes reviewed_at pending)
    load_stored_review_case saved

  -- The queries of `GetStats`, in their order.
  abbrev count_all : Exec W StoredStats
  count_all = do
    total ← counted "total moderated" (db.results.count (λ row. true))
    allowed ←
        counted "policy allowed" (db.results.count (λ row. str_eq row.decision decision_allow))
    blocked ←
        counted "policy blocked" (db.results.count (λ row. str_eq row.decision decision_block))
    final_allowed ← counted "review final allowed" (
        db.review_cases.count (λ row.
          not (str_eq row.status review_status_pending)
          && str_eq row.final_decision decision_allow))
    final_blocked ← counted "review final blocked" (
        db.review_cases.count (λ row.
          not (str_eq row.status review_status_pending)
          && str_eq row.final_decision decision_block))
    pending ←
        counted "pending review"
          (db.review_cases.count (λ row. str_eq row.status review_status_pending))
    reviewed ←
        counted "reviewed"
          (db.review_cases.count (λ row. not (str_eq row.status review_status_pending)))
    mistakes ←
        counted "mistakes" (db.review_cases.count (λ row. str_eq row.status review_status_mistake))
    deliveries ← counted "webhook deliveries" (db.deliveries.count (λ row. true))
    succeeded ←
        counted "succeeded webhook deliveries"
          (db.deliveries.count (λ row. str_eq row.status webhook_delivery_succeeded))
    failed ←
        counted "failed webhook deliveries"
          (db.deliveries.count (λ row. str_eq row.status webhook_delivery_failed))
    retrying ←
        counted "retrying webhook deliveries"
          (db.deliveries.count (λ row. str_eq row.status webhook_delivery_retrying))
    pure (record {
      total_moderated = total;
      policy_allowed = allowed;
      policy_blocked = blocked;
      review_final_allowed = final_allowed;
      review_final_blocked = final_blocked;
      pending_review = pending;
      reviewed = reviewed;
      mistakes = mistakes;
      webhook_total = deliveries;
      webhook_succeeded = succeeded;
      webhook_failed = failed;
      webhook_retrying = retrying;
    })

module _ {W : Type 0} (connection : Option (Database W)) where
  -- `ListReviewCases`.
  unfoldable pub list_review_cases : ReviewCaseFilter → Exec W StoredReviewCasePage
  unfolding review_case_list_query page_of stored_cases
  list_review_cases filter = do
    db ← connected connection
    rows ←
        report "failed to list review cases" (db.review_cases.find (review_case_list_query filter))
    page_from db filter rows

  -- `GetReviewCase`.
  unfoldable pub get_review_case : ℕ → Exec W StoredReviewCase
  unfolding load_stored_review_case
  get_review_case case_id = do
    db ← connected connection
    found ←
        report "failed to retrieve review case" (db.review_cases.first (λ row. row.id == case_id))
    row ← lift (found_or "Review case not found" found)
    load_stored_review_case db row

  -- `FinalizeReviewCase`.
  unfoldable pub finalize_review_case :
      ℕ → ℕ → ReviewStatus → Decision → String → Time → Exec W StoredReviewCase
  unfolding finalize_row
  finalize_review_case case_id reviewer_id status final_decision notes reviewed_at = do
    db ← connected connection
    result ← attempt (
        transaction db
          (finalize_row db case_id reviewer_id status final_decision notes reviewed_at))
    lift (transaction_error "failed to finalize review case" result)

  -- `GetStats`.
  unfoldable pub get_stats : Exec W StoredStats
  get_stats = do db ← connected connection; transaction db (count_all db)
