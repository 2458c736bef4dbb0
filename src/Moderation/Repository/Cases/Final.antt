-- ===== src/Moderation/Repository/Cases/Final.antt =====
-- internal/moderation/repository.go: a review case is finalized once.
use hate_sentry.Base.{
  ℕ, ◌&&◌, ◌==◌, ◌≡◌, ◌≢◌, refl, sym, ap, ◌∙◌, inl, inr, String, Bool-cases, Option, none, some,
  str_eq, eq_iff, arith,
}
use hate_sentry.Errors.{Error, Result, ok, err, Result-cases, raised, conflict_error}
use hate_sentry.Models.{Time, ReviewCase}
use hate_sentry.Database.{Database}
use hate_sentry.Database.Keyed.{IsKeyed, Leaves, Selects}
use hate_sentry.Database.Rows.{first-some}
use hate_sentry.Moderation.Types.{Decision, ReviewStatus, review_status_pending}
use hate_sentry.Moderation.Service.{StoredReviewCase}
use hate_sentry.Moderation.Repository.Deliveries.{transaction_error}
use hate_sentry.Moderation.Repository.Cases.{
  finalized, still_pending, finalize_row, load_stored_review_case,
}

abbrev pub stamp_case : Time → ReviewCase → ReviewCase
stamp_case t row = record row { updated_at = t }

pub with_id-Selects : (id : ℕ) → Selects (λ (row : ReviewCase). row.id) id (λ row. row.id == id)
with_id-Selects id row h = ground arith

still_pending-ok :
    (row : ReviewCase) {pending : ReviewCase}
    → still_pending row ≡ ok pending
    → (row.status ≡ review_status_pending) × (pending ≡ row)
still_pending-ok row {pending} h = elim (Bool-cases (str_eq row.status review_status_pending)) [
  | inl same ↦
      let kept : ok row ≡ ok pending = rw same at h in
      ((eq_iff row.status review_status_pending).0 same, cc)
  | inr other ↦ let refused = rw other at h in cc
]

pub still_pending-err :
    (row : ReviewCase)
    → row.status ≢ review_status_pending
    → still_pending row ≡ err (raised (conflict_error "Review case is already finalized"))
still_pending-err row h = elim (Bool-cases (str_eq row.status review_status_pending)) [
  | inl same ↦ elim (h ((eq_iff row.status review_status_pending).0 same)) [ ]
  | inr other ↦ rw other refl
]

pub transaction_error-ok :
    {A : Type 0} (message : String) (r : Result A) {a : A}
    → transaction_error message r ≡ ok a
    → r ≡ ok a
transaction_error-ok message (ok a) h = h
transaction_error-ok message (err e) h = cc

pub transaction_error-err :
    {A : Type 0} (message : String) (x : Error)
    → (e : Error) × (transaction_error {A = A} message (err x) ≡ err e)
transaction_error-err message x = (_, refl)

module _ {W : Type 0} (db : Database W) (at : W → ℕ → Option ReviewCase)
    (law : IsKeyed db.review_cases (λ row. row.id) stamp_case at) (apart : Leaves db.requests at)
    (apart_results : Leaves db.results at) where
  load_stored_review_case-same :
      (row : ReviewCase) (w : W) (k : ℕ) → at ((load_stored_review_case db row w).1) k ≡ at w k
  unfolding load_stored_review_case
  load_stored_review_case-same row w k =
      let asked =
        db.requests.first (λ r. (r.user_id == row.user_id) && str_eq r.request_id row.request_id)
          w in
      let then_asked =
        db.results.first (λ r. (r.user_id == row.user_id) && str_eq r.request_id row.request_id)
          (asked.1) in
      let same =
        apart (λ r. (r.user_id == row.user_id) && str_eq r.request_id row.request_id) w k in
      let then_same =
        apart_results (λ r. (r.user_id == row.user_id) && str_eq r.request_id row.request_id)
          (asked.1) k in
      elim (Result-cases (asked.0)) [
        | inr (e, failed) ↦ rw failed same
        | inl (none, missing) ↦ rw missing same
        | inl (some request, found) ↦ elim (Result-cases (then_asked.0)) [
          | inr (e, failed) ↦ rw (found, failed) (then_same ∙ same)
          | inl (none, missing) ↦ rw (found, missing) (then_same ∙ same)
          | inl (some result, found_result) ↦ rw (found, found_result) (then_same ∙ same)
        ]
      ]

  load_stored_review_case-ok :
      (row : ReviewCase) (w : W) {stored : StoredReviewCase}
      → (load_stored_review_case db row w).0 ≡ ok stored
      → stored.review_case ≡ row
  unfolding load_stored_review_case
  load_stored_review_case-ok row w {stored} h =
      let asked =
        db.requests.first (λ r. (r.user_id == row.user_id) && str_eq r.request_id row.request_id)
          w in
      let then_asked =
        db.results.first (λ r. (r.user_id == row.user_id) && str_eq r.request_id row.request_id)
          (asked.1) in
      elim (Result-cases (asked.0)) [
        | inr (e, failed) ↦ cc
        | inl (none, missing) ↦ cc
        | inl (some request, found) ↦ elim (Result-cases (then_asked.0)) [
          | inr (e, failed) ↦ let refused : err _ ≡ ok stored = rw (found, failed) at h in cc
          | inl (none, missing) ↦ let refused : err _ ≡ ok stored = rw (found, missing) at h in cc
          | inl (some result, found_result) ↦
              let made : ok (record { review_case = row; request = request; result = result })
                  ≡ ok stored =
                rw (found, found_result) at h in
              let same : stored ≡ record { review_case = row; request = request; result = result } =
                cc in
              ap (λ s. StoredReviewCase.review_case s) same
        ]
      ]

  module _ (case_id reviewer_id : ℕ) (status : ReviewStatus) (decision : Decision) (notes : String)
      (t : Time) where
    pub finalize_row-ok :
        (w : W) {stored : StoredReviewCase}
        → (finalize_row db case_id reviewer_id status decision notes t w).0 ≡ ok stored
        → (row : ReviewCase) × (updated : Time) × (at w case_id ≡ some row)
          × (row.status ≡ review_status_pending)
          × (stored.review_case
              ≡ stamp_case updated (finalized reviewer_id status decision notes t row))
          × (at ((finalize_row db case_id reviewer_id status decision notes t w).1) case_id
              ≡ some stored.review_case)
    unfolding finalize_row finalized
    finalize_row-ok w {stored} h =
        let asked = db.review_cases.first (λ row. row.id == case_id) w in
        elim (Result-cases (asked.0)) [
          | inr (e, failed) ↦ cc
          | inl (none, missing) ↦ cc
          | inl (some row, found) ↦
              let (here, fits) =
                first-some db.review_cases (λ r. r.id) stamp_case at law case_id _
                  (with_id-Selects case_id) w found in
              elim (Result-cases (still_pending row)) [
                | inr (e, refused) ↦ let failed : err e ≡ ok stored = rw (found, refused) at h in cc
                | inl (pending, checked) ↦
                    let (was_pending, same) = still_pending-ok row checked in
                    let change =
                      db.review_cases.save (finalized reviewer_id status decision notes t pending)
                        (asked.1) in
                    elim (Result-cases (change.0)) [
                      | inr (e, refused) ↦
                          let failed : err e ≡ ok stored = rw (found, checked, refused) at h in cc
                      | inl (saved, done) ↦
                          let (updated, stamped, stands) = law.save_row _ saved (asked.1) done in
                          let loaded : (load_stored_review_case db saved (change.1)).0 ≡ ok stored =
                            rw (found, checked, done) at h in
                          let is_saved = load_stored_review_case-ok saved (change.1) loaded in
                          let stays = load_stored_review_case-same saved (change.1) case_id in
                          let key : pending.id ≡ case_id =
                            ap (λ r. ReviewCase.id r) same ∙ law.keyed w case_id row here in
                          let place : at (change.1) case_id ≡ some saved =
                            ap (at (change.1)) (sym key) ∙ stands in
                          (
                            row,
                            updated,
                            here,
                            was_pending,
                            is_saved
                                ∙ stamped
                                ∙ ap
                                    (λ r.
                                      stamp_case updated
                                        (finalized reviewer_id status decision notes t r))
                                    same,
                            rw (found, checked, done) (stays ∙ place ∙ ap some (sym is_saved)),
                          )
                    ]
              ]
        ]
