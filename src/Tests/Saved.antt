-- ===== src/Tests/Saved.antt =====
-- `SaveCheck` on three tables that are lists.
use hate_sentry.Base.{◌≡◌, refl, sym, ap, ◌∷◌, none, some, List, []}
use hate_sentry.Errors.{Result, ok}
use hate_sentry.Models.{ModerationRequest, ModerationResult, ReviewCase}
use hate_sentry.Database.{Database, Table}
use hate_sentry.Database.Listed.{IsAtomic}
use hate_sentry.Moderation.Types.{review_status_approved, decision_allow}
use hate_sentry.Moderation.Check.Rows.{KeepsCase}
use hate_sentry.Moderation.Repository.{gorm_repository}
use hate_sentry.Moderation.Repository.Keeps.{IsTables, Stores, gorm_repository-Stores}
use hate_sentry.Tests.Tables.{fixed_table}
use hate_sentry.Tests.Sample.{
  stored_user, stored_request, stored_row, failed_delivery, approved_case,
}
use hate_sentry.Tests.Clients.{some_client}

record Rows : Type 0 where
  requests : List ModerationRequest
  results : List ModerationResult
  cases : List ReviewCase

abbrev a_case : ReviewCase
a_case = approved_case 3 2 review_status_approved decision_allow "" 5

abbrev request_table : Table Rows ModerationRequest
request_table = record (fixed_table {W = Rows} stored_request) {
  create = λ row w.
      let made = record row { id = 1; created_at = 5; updated_at = 5 } in
      (ok made, record w { requests = made ∷ w.requests });
}

abbrev result_table : Table Rows ModerationResult
result_table = record (fixed_table {W = Rows} stored_row) {
  create = λ row w.
      let made = record row { id = 1; created_at = 5; updated_at = 5 } in
      (ok made, record w { results = made ∷ w.results });
}

abbrev case_table : Table Rows ReviewCase
case_table = record (fixed_table {W = Rows} a_case) {
  create = λ row w.
      let made = record row { id = 1; created_at = 5; updated_at = 5 } in
      (ok made, record w { cases = made ∷ w.cases });
}

abbrev database : Database Rows
database = record {
  users = fixed_table stored_user;
  ensure_lock = λ lock w. (ok tt, w);
  hold_lock = λ p w. (ok none, w);
  requests = request_table;
  results = result_table;
  review_cases = case_table;
  clients = fixed_table some_client;
  deliveries = fixed_table failed_delivery;
  find_results_joined = λ q p w. (ok [], w);
  begin = λ w. (ok tt, w);
  commit = λ w. (ok tt, w);
  rollback = λ w v. w;
}

module _ {Row : Type 0} (rows : Rows → List Row) where
  atomic : IsAtomic database rows
  atomic = record { begun = λ w. refl; committed = λ w h. refl; rolled_back = λ w v. refl }

ok_same : {A : Type 0} {a b : A} → Result.ok a ≡ ok b → b ≡ a
ok_same h = cc

tables : IsTables (λ w. w.requests) (λ w. w.results) (λ w. w.cases) database
tables = record {
  create_request =
      λ row made w h. ((1, 5, ok_same h), ap (λ r. r ∷ w.requests) (sym (ok_same h)), refl, refl);
  create_result =
      λ row made w h. ((1, 5, ok_same h), refl, ap (λ r. r ∷ w.results) (sym (ok_same h)), refl);
  create_case =
      λ row made w h. ((1, 5, ok_same h), refl, refl, ap (λ r. r ∷ w.cases) (sym (ok_same h)));
  atomic_requests = atomic (λ w. w.requests);
  atomic_results = atomic (λ w. w.results);
  atomic_cases = atomic (λ w. w.cases);
}

gorm_repository-Stores_example :
    Stores
      (λ w. w.requests)
      (λ w. w.results)
      (λ w. w.cases)
      (gorm_repository (λ s. s) (some database))
    × KeepsCase (gorm_repository (λ s. s) (some database))
gorm_repository-Stores_example =
    gorm_repository-Stores (λ s. s) database (λ w. w.requests) (λ w. w.results) (λ w. w.cases)
      tables
