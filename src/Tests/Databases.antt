-- ===== src/Tests/Databases.antt =====
-- The repository of the moderation service on small databases.
use hate_sentry.Base.{
  ◌≡◌, ◌≢◌, ◌⊎◌, refl, [], ℕ, String, Option, none, some, true, false, eq_iff, arith,
}
use hate_sentry.Errors.{Error, ok, err}
use hate_sentry.Models.{ReviewCase, WebhookDelivery}
use hate_sentry.Database.{Database, Table, database_error_of}
use hate_sentry.Database.Keyed.{IsKeyed, IsTransactional}
use hate_sentry.Moderation.Types.{
  review_status_pending, review_status_approved, review_status_rejected, decision_allow,
  decision_block,
}
use hate_sentry.Moderation.Delivery.{is_webhook_retry_conflict}
use hate_sentry.Moderation.Repository.Deliveries.{
  retryable_before, claimable, claimed, get_webhook_delivery, claim_failed_webhook_delivery,
}
use hate_sentry.Moderation.Repository.Deliveries.Claimed.{
  stamp_delivery, claim_failed_webhook_delivery-excludes,
}
use hate_sentry.Moderation.Repository.Cases.{
  finalized, finalize_row, load_stored_review_case, finalize_review_case,
}
use hate_sentry.Moderation.Repository.Cases.Final.{stamp_case}
use hate_sentry.Moderation.Repository.Cases.Once.{finalize_review_case-once}
use hate_sentry.Tests.Tables.{fixed_table, one_table, row_at, one_table-IsKeyed}
use hate_sentry.Tests.Sample.{
  stored_user, stored_request, stored_row, failed_delivery, approved_case,
}
use hate_sentry.Tests.Clients.{some_client}

abbrev delivery_table : Table (Option WebhookDelivery) WebhookDelivery
delivery_table = one_table (λ row. row.id) stamp_delivery

abbrev delivery_database : Database (Option WebhookDelivery)
delivery_database = record {
  users = fixed_table stored_user;
  ensure_lock = λ lock w. (ok tt, w);
  hold_lock = λ p w. (ok none, w);
  requests = fixed_table stored_request;
  results = fixed_table stored_row;
  review_cases = fixed_table (approved_case 3 2 review_status_approved decision_allow "" 5);
  clients = fixed_table some_client;
  deliveries = delivery_table;
  find_results_joined = λ q p w. (ok [], w);
  begin = λ w. (ok tt, w);
  commit = λ w. (ok tt, w);
  rollback = λ w v. w;
}

abbrev delivery_law :
    IsKeyed delivery_table (λ row. row.id) stamp_delivery (row_at (λ row. row.id) stamp_delivery)
delivery_law = one_table-IsKeyed (λ row. row.id) stamp_delivery (λ t row. refl)

abbrev claimed_delivery : WebhookDelivery
claimed_delivery = record failed_delivery {
  updated_at = 50;
  status = "retrying";
  attempt_count = 2;
  last_attempt_at = 9;
  error_message = "";
}

claim_failed_webhook_delivery-excludes_example :
    (e : Error) × ((claim_failed_webhook_delivery
        (some delivery_database)
        4
        7
        100
        (some claimed_delivery)).0
      ≡ err e)
    × ((is_webhook_retry_conflict e ≡ true)
        ⊎ ((x : Error) × (message : String) × (e ≡ database_error_of x message)))
unfolding claim_failed_webhook_delivery claimable retryable_before claimed get_webhook_delivery
claim_failed_webhook_delivery-excludes_example =
    claim_failed_webhook_delivery-excludes delivery_database (row_at (λ r. r.id) stamp_delivery)
      delivery_law 4 5 7 9 100 (some failed_delivery) (some claimed_delivery) refl refl
      (omega arith)

abbrev case_table : Table (Option ReviewCase) ReviewCase
case_table = one_table (λ row. row.id) stamp_case

abbrev case_database : Database (Option ReviewCase)
case_database = record {
  users = fixed_table stored_user;
  ensure_lock = λ lock w. (ok tt, w);
  hold_lock = λ p w. (ok none, w);
  requests = fixed_table stored_request;
  results = fixed_table stored_row;
  review_cases = case_table;
  clients = fixed_table some_client;
  deliveries = fixed_table failed_delivery;
  find_results_joined = λ q p w. (ok [], w);
  begin = λ w. (ok tt, w);
  commit = λ w. (ok tt, w);
  rollback = λ w v. w;
}

abbrev case_at : Option ReviewCase → ℕ → Option ReviewCase
case_at = row_at (λ row. row.id) stamp_case

abbrev case_law : IsKeyed case_table (λ row. row.id) stamp_case case_at
case_law = one_table-IsKeyed (λ row. row.id) stamp_case (λ t row. refl)

abbrev case_isolated : IsTransactional case_database case_at
case_isolated = record {
  begun = λ w k. refl;
  committed = λ w k done. refl;
  rolled_back = λ w v k. refl;
}

abbrev pending_case : ReviewCase
pending_case = record (approved_case 3 2 review_status_pending "" "" 2) {
  reviewer_id = none;
  reviewed_at = none;
}

abbrev approved : ReviewCase
approved = record (approved_case 3 2 review_status_approved decision_allow "fine" 9) {
  updated_at = 50;
}

approved-ne-pending : review_status_approved ≢ review_status_pending
approved-ne-pending p =
    let same : false ≡ true = (eq_iff review_status_approved review_status_pending).1 p in cc

finalize_review_case-once_example :
    (e : Error) × ((finalize_review_case
        (some case_database)
        3
        4
        review_status_rejected
        decision_block
        "no"
        10
        (some approved)).0
      ≡ err e)
    × (case_at
          ((finalize_review_case
            (some case_database)
            3
            4
            review_status_rejected
            decision_block
            "no"
            10
            (some approved)).1)
          3
        ≡ some approved)
unfolding finalize_review_case finalize_row finalized load_stored_review_case
finalize_review_case-once_example =
    finalize_review_case-once case_database case_at case_law case_isolated (λ p w k. refl)
      (λ p w k. refl) 3 2 4 review_status_approved review_status_rejected decision_allow
      decision_block "fine" "no" 9 10 (some pending_case) (some approved) approved-ne-pending refl
      refl
