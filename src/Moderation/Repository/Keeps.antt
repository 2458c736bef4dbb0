-- ===== src/Moderation/Repository/Keeps.antt =====
-- internal/moderation/repository.go: `SaveCheck` stores what the service gives it.
use hate_sentry.Base.{
  ◌≡◌, refl, ap, ◌∙◌, ℕ, String, Option, none, some, List, ◌∷◌, inl, inr, Bool-cases,
}
use hate_sentry.Errors.{Error, Result, ok, err, Result-cases}
use hate_sentry.Models.{Time, ModerationRequest, ModerationResult, ReviewCase}
use hate_sentry.Database.{Database, transaction}
use hate_sentry.Database.Listed.{IsAtomic, transaction-atomic}
use hate_sentry.Database.Transactions.{transaction-ok}
use hate_sentry.Moderation.Outputs.{case_status}
use hate_sentry.Moderation.Service.{CheckRows, Repository}
use hate_sentry.Moderation.Check.Rows.{KeepsCase}
use hate_sentry.Moderation.Repository.{gorm_repository}
use hate_sentry.Moderation.Repository.Loading.{is_duplicate_key_error}
use hate_sentry.Moderation.Repository.Results.{
  save_check, create_rows, create_case, created_request, saved_rows,
}

-- `Create` gives a row an id and times.
abbrev pub MadeRequest : ModerationRequest → ModerationRequest → Type 0
MadeRequest row made =
    (id : ℕ) × (t : Time) × (made ≡ record row { id = id; created_at = t; updated_at = t })

abbrev pub MadeResult : ModerationResult → ModerationResult → Type 0
MadeResult row made =
    (id : ℕ) × (t : Time) × (made ≡ record row { id = id; created_at = t; updated_at = t })

abbrev pub MadeCase : ReviewCase → ReviewCase → Type 0
MadeCase row made =
    (id : ℕ) × (t : Time) × (made ≡ record row { id = id; created_at = t; updated_at = t })

-- What becomes of the review case that there may be, and of the table of cases.
abbrev pub CaseStored :
    Option ReviewCase → Option ReviewCase → List ReviewCase → List ReviewCase → Type 0
CaseStored none none before after = after ≡ before
CaseStored (some row) (some made) before after = MadeCase row made × (after ≡ made ∷ before)
CaseStored _ _ before after = ⊥

module _ {W : Type 0} (requests : W → List ModerationRequest) (results : W → List ModerationResult)
    (cases : W → List ReviewCase) where
  abbrev pub SameRows : W → W → Type 0
  SameRows v w = (requests w ≡ requests v) × (results w ≡ results v) × (cases w ≡ cases v)

  -- The rows of a check came to the tables, each once, and nothing else did.
  pub record IsStored (rows saved : CheckRows) (v w : W) : Type 0 where
    pub made_request : MadeRequest rows.request saved.request
    pub made_result : MadeResult rows.result saved.result
    pub new_request : requests w ≡ saved.request ∷ requests v
    pub new_result : results w ≡ saved.result ∷ results v
    pub new_case : CaseStored rows.review_case saved.review_case (cases v) (cases w)

  -- What the service asks of `SaveCheck`: all rows are stored, or none is.
  pub record Stores (repository : Repository W) : Type 0 where
    pub stored :
        (rows saved : CheckRows) (w : W)
        → (repository.save_check rows w).0 ≡ ok saved
        → IsStored rows saved w ((repository.save_check rows w).1)
    pub undone :
        (rows : CheckRows) (w : W) {e : Error}
        → (repository.save_check rows w).0 ≡ err e
        → SameRows w ((repository.save_check rows w).1)

  -- What GORM and MySQL document of three tables: a row that is created is the newest of its table
  -- and leaves the others alone, and transactions keep or restore them all.
  pub record IsTables (db : Database W) : Type 0 where
    pub create_request :
        (row made : ModerationRequest) (w : W)
        → (db.requests.create row w).0 ≡ ok made
        → MadeRequest row made
          × (requests ((db.requests.create row w).1) ≡ made ∷ requests w)
          × (results ((db.requests.create row w).1) ≡ results w)
          × (cases ((db.requests.create row w).1) ≡ cases w)
    pub create_result :
        (row made : ModerationResult) (w : W)
        → (db.results.create row w).0 ≡ ok made
        → MadeResult row made
          × (requests ((db.results.create row w).1) ≡ requests w)
          × (results ((db.results.create row w).1) ≡ made ∷ results w)
          × (cases ((db.results.create row w).1) ≡ cases w)
    pub create_case :
        (row made : ReviewCase) (w : W)
        → (db.review_cases.create row w).0 ≡ ok made
        → MadeCase row made
          × (requests ((db.review_cases.create row w).1) ≡ requests w)
          × (results ((db.review_cases.create row w).1) ≡ results w)
          × (cases ((db.review_cases.create row w).1) ≡ made ∷ cases w)
    pub atomic_requests : IsAtomic db requests
    pub atomic_results : IsAtomic db results
    pub atomic_cases : IsAtomic db cases

  -- Where the rows are stored, the status of the review case is kept.
  Stores-KeepsCase : {repository : Repository W} → Stores repository → KeepsCase repository
  Stores-KeepsCase {repository} h = record {
    kept = λ rows saved w done.
        status rows.review_case saved.review_case _ _ (h.stored rows saved w done).new_case;
  }
    where
      status :
          (row made : Option ReviewCase) (before after : List ReviewCase)
          → CaseStored row made before after
          → case_status made ≡ case_status row
      status none none before after h = refl
      status (some row) (some made) before after ((id, t, same), _) =
          ap (λ r. ReviewCase.status r) same
      status none (some made) before after h = absurd h
      status (some row) none before after h = absurd h

saved_rows-ok : (r : Result CheckRows) {rows : CheckRows} → saved_rows r ≡ ok rows → r ≡ ok rows
saved_rows-ok (ok rows) h = h
saved_rows-ok (err e) h = cc

saved_rows-err :
    (r : Result CheckRows) {e : Error} → saved_rows r ≡ err e → (x : Error) × (r ≡ err x)
saved_rows-err (ok rows) h = cc
saved_rows-err (err x) h = (x, refl)

created_request-ok :
    (to_lower : String → String) (r : Result ModerationRequest) {request : ModerationRequest}
    → created_request to_lower r ≡ ok request
    → r ≡ ok request
created_request-ok to_lower (ok request) h = h
created_request-ok to_lower (err e) {request} h =
    elim (Bool-cases (is_duplicate_key_error to_lower e)) [
      | inl duplicate ↦ let refused : err _ ≡ ok request = rw duplicate at h in cc
      | inr other ↦ let refused : err _ ≡ ok request = rw other at h in cc
    ]

module _ {W : Type 0} (to_lower : String → String) (db : Database W)
    (requests : W → List ModerationRequest) (results : W → List ModerationResult)
    (cases : W → List ReviewCase) (law : IsTables requests results cases db) where
  create_case-stored :
      (review_case : Option ReviewCase) (w : W) {created : Option ReviewCase}
      → (create_case db review_case w).0 ≡ ok created
      → CaseStored review_case created (cases w) (cases ((create_case db review_case w).1))
        × (requests ((create_case db review_case w).1) ≡ requests w)
        × (results ((create_case db review_case w).1) ≡ results w)
  create_case-stored none w {created} h =
      let same : created ≡ none = cc in (rw same refl, refl, refl)
  create_case-stored (some row) w {created} h =
      elim (Result-cases ((db.review_cases.create row w).0)) [
        | inr (x, e) ↦ let refused : err _ ≡ ok created = rw e at h in cc
        | inl (c, e) ↦
            let made : ok (some c) ≡ ok created = rw e at h in
            let same : created ≡ some c = cc in
            let (new, first, second, third) = law.create_case row c w e in
            (rw (same, e) (new, third), rw e first, rw e second)
      ]

  create_rows-stored :
      (rows : CheckRows) (w : W) {saved : CheckRows}
      → (create_rows to_lower db rows w).0 ≡ ok saved
      → IsStored requests results cases rows saved w ((create_rows to_lower db rows w).1)
  create_rows-stored rows w {saved} h =
      let w1 = (db.requests.create rows.request w).1 in
      let w2 = (db.results.create rows.result w1).1 in
      elim (Result-cases (created_request to_lower ((db.requests.create rows.request w).0))) [
        | inr (x, e) ↦ let refused : err _ ≡ ok saved = rw e at h in cc
        | inl (request, e1) ↦ elim (Result-cases ((db.results.create rows.result w1).0)) [
          | inr (x, e) ↦ let refused : err _ ≡ ok saved = rw (e1, e) at h in cc
          | inl (result, e2) ↦ elim (Result-cases ((create_case db rows.review_case w2).0)) [
            | inr (x, e) ↦ let refused : err _ ≡ ok saved = rw (e1, e2, e) at h in cc
            | inl (review_case, e3) ↦
                let made : ok
                      (record { request = request; result = result; review_case = review_case })
                    ≡ ok saved =
                  rw (e1, e2, e3) at h in
                let same : saved
                    ≡ record { request = request; result = result; review_case = review_case } =
                  cc in
                let (new1, requests1, results1, cases1) =
                  law.create_request rows.request request w (created_request-ok to_lower _ e1) in
                let (new2, requests2, results2, cases2) =
                  law.create_result rows.result result w1 e2 in
                let (new3, requests3, results3) = create_case-stored rows.review_case w2 e3 in
                rw (same, e1, e2, e3)
                  (record {
                    made_request = new1;
                    made_result = new2;
                    new_request = requests3 ∙ requests2 ∙ requests1;
                    new_result = results3 ∙ results2 ∙ ap (λ l. result ∷ l) results1;
                    new_case = rw⁻¹ (cases2 ∙ cases1) new3;
                  })
          ]
        ]
      ]

  -- On a database whose tables are lists that transactions keep or restore, the repository is what
  -- the service relies on. `SaveCheck` stores the request, the result and the review case, if there
  -- is one, each as one new row with the fields that it was given but for its id and times; where it
  -- fails, it has stored nothing. So the status of the review case is kept.
  pub gorm_repository-Stores :
      Stores requests results cases (gorm_repository to_lower (some db))
      × KeepsCase (gorm_repository to_lower (some db))
  unfolding save_check
  gorm_repository-Stores =
      let body = create_rows to_lower db in
      let stores : Stores requests results cases (gorm_repository to_lower (some db)) = record {
        stored = λ rows saved w h.
            let done = saved_rows-ok ((transaction db (body rows) w).0) h in
            let (v, ran, left, begun, committed) = transaction-ok db (body rows) w done in
            committed-stored rows w v ran left begun committed;
        undone = λ rows w h.
            let (x, failed) = saved_rows-err ((transaction db (body rows) w).0) h in
            (
              transaction-atomic db requests law.atomic_requests (body rows) w failed,
              transaction-atomic db results law.atomic_results (body rows) w failed,
              transaction-atomic db cases law.atomic_cases (body rows) w failed,
            );
      } in
      (stores, Stores-KeepsCase requests results cases stores)
    where
      committed-stored :
          (rows : CheckRows) (w v : W) {saved : CheckRows}
          → (create_rows to_lower db rows v).0 ≡ ok saved
          → (transaction db (create_rows to_lower db rows) w).1
            ≡ (db.commit ((create_rows to_lower db rows v).1)).1
          → v ≡ (db.begin w).1
          → (db.commit ((create_rows to_lower db rows v).1)).0 ≡ ok tt
          → IsStored requests results cases rows saved w
              ((transaction db (create_rows to_lower db rows) w).1)
      committed-stored rows w v {saved} ran left begun committed =
          let s = create_rows-stored rows v ran in
          let u = (create_rows to_lower db rows v).1 in
          let start1 : requests v ≡ requests w = ap requests begun ∙ law.atomic_requests.begun w in
          let start2 : results v ≡ results w = ap results begun ∙ law.atomic_results.begun w in
          let start3 : cases v ≡ cases w = ap cases begun ∙ law.atomic_cases.begun w in
          let end3 = ap cases left ∙ law.atomic_cases.committed u committed in
          record {
            made_request = s.made_request;
            made_result = s.made_result;
            new_request =
                ap requests left
                ∙ law.atomic_requests.committed u committed
                ∙ s.new_request
                ∙ ap (λ l. saved.request ∷ l) start1;
            new_result =
                ap results left
                ∙ law.atomic_results.committed u committed
                ∙ s.new_result
                ∙ ap (λ l. saved.result ∷ l) start2;
            new_case = rw end3 (rw start3 at s.new_case);
          }
