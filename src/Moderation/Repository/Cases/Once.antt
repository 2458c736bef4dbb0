-- ===== src/Moderation/Repository/Cases/Once.antt =====
-- internal/moderation/repository.go: `FinalizeReviewCase` takes a pending case, and only once.
use hate_sentry.Base.{
  ℕ, ◌==◌, ◌≡◌, ◌≢◌, refl, sym, ap, ◌∙◌, ◌⊎◌, inl, inr, String, Option, some, arith,
}
use hate_sentry.Errors.{Error, ok, err, Result-cases, raised, conflict_error}
use hate_sentry.Models.{Time, ReviewCase}
use hate_sentry.Database.{Database, transaction}
use hate_sentry.Database.Keyed.{IsKeyed, IsTransactional, Leaves}
use hate_sentry.Database.Rows.{first-here}
use hate_sentry.Database.Transactions.{transaction-ok, transaction-err, transaction-begin-err}
use hate_sentry.Moderation.Types.{Decision, ReviewStatus, review_status_pending}
use hate_sentry.Moderation.Service.{StoredReviewCase}
use hate_sentry.Moderation.Repository.Cases.{finalized, finalize_row, finalize_review_case}
use hate_sentry.Moderation.Repository.Cases.Final.{
  stamp_case, with_id-Selects, still_pending-err, transaction_error-ok, transaction_error-err,
  finalize_row-ok,
}

module _ {W : Type 0} (db : Database W) (at : W → ℕ → Option ReviewCase)
    (law : IsKeyed db.review_cases (λ row. row.id) stamp_case at)
    (isolated : IsTransactional db at) where
  -- A case that is no longer pending cannot be finalized: the call fails and leaves the row as it
  -- is. Its error says so, unless the transaction could not begin or the row could not be read.
  -- The table of cases is keyed, and transactions begin, commit and roll back as documented.
  pub finalize_review_case-refuses :
      (case_id reviewer_id : ℕ) (status : ReviewStatus) (decision : Decision) (notes : String)
      (t : Time) (w : W) (row : ReviewCase)
      → at w case_id ≡ some row
      → row.status ≢ review_status_pending
      → (e : Error) × ((finalize_review_case
            (some db)
            case_id
            reviewer_id
            status
            decision
            notes
            t
            w).0
          ≡ err e)
        × (at
              ((finalize_review_case (some db) case_id reviewer_id status decision notes t w).1)
              case_id
            ≡ some row)
        × ((e ≡ raised (conflict_error "Review case is already finalized"))
            ⊎ (((x : Error) × ((db.begin w).0 ≡ err x))
                ⊎ ((x : Error) × ((db.review_cases.first (λ r. r.id == case_id) ((db.begin w).1)).0
                      ≡ err x))))
  unfolding finalize_review_case finalize_row conflict_error
  finalize_review_case-refuses case_id reviewer_id status decision notes t w row here done =
      let body = finalize_row db case_id reviewer_id status decision notes t in
      let v = (db.begin w).1 in
      let asked = db.review_cases.first (λ r. r.id == case_id) v in
      let there = isolated.begun w case_id ∙ here in
      let same = law.keyed w case_id row here in
      elim (Result-cases ((db.begin w).0)) [
        | inr (x, failed) ↦
            let back = transaction-begin-err db body w failed in
            let (e, raises) =
              transaction_error-err {A = StoredReviewCase} "failed to finalize review case" x in
            (e, rw back raises, rw back there, inr (inl (x, failed)))
        | inl (_, began) ↦
            elim (first-here db.review_cases (λ r. r.id) stamp_case at law case_id _
              (with_id-Selects case_id) v row there (ground arith)) [
                | inl (x, failed) ↦
                    let stopped : (body v).0 ≡ err x = rw failed refl in
                    let back = transaction-err db body w began stopped in
                    let (e, raises) =
                      transaction_error-err {A = StoredReviewCase} "failed to finalize review case"
                        x in
                    (
                      e,
                      rw back raises,
                      rw back (isolated.rolled_back w _ case_id ∙ here),
                      inr (inr (x, failed)),
                    )
                | inr found ↦
                    let final = still_pending-err row done in
                    let stopped : (body v).0
                        ≡ err (raised (conflict_error "Review case is already finalized")) =
                      rw (found, final) refl in
                    let back = transaction-err db body w began stopped in
                    (_, rw back refl, rw back (isolated.rolled_back w _ case_id ∙ here), inl refl)
              ]
      ]

  -- A call of `FinalizeReviewCase` that succeeds found the case pending, and returns it with the
  -- given reviewer, status, decision, notes and time, as it stands in the table afterwards. The
  -- table of cases is keyed and transactional, and queries of requests and results leave it alone.
  pub finalize_review_case-ok :
      (apart : Leaves db.requests at) (apart_results : Leaves db.results at)
      (case_id reviewer_id : ℕ) (status : ReviewStatus) (decision : Decision) (notes : String)
      (t : Time) (w : W) {stored : StoredReviewCase}
      → (finalize_review_case (some db) case_id reviewer_id status decision notes t w).0 ≡ ok stored
      → (row : ReviewCase) × (updated : Time) × (at w case_id ≡ some row)
        × (row.status ≡ review_status_pending)
        × (stored.review_case
            ≡ stamp_case updated (finalized reviewer_id status decision notes t row))
        × (at
              ((finalize_review_case (some db) case_id reviewer_id status decision notes t w).1)
              case_id
            ≡ some stored.review_case)
  unfolding finalize_review_case
  finalize_review_case-ok apart apart_results case_id reviewer_id status decision notes t w {stored}
        h =
      let body = finalize_row db case_id reviewer_id status decision notes t in
      let returned =
        transaction_error-ok "failed to finalize review case" ((transaction db body w).0) h in
      let (v, made, committed, began, done) = transaction-ok db body w returned in
      let (row, updated, here, was_pending, result, stands) =
        finalize_row-ok db at law apart apart_results case_id reviewer_id status decision notes t v
          made in
      let found : at w case_id ≡ some row =
        sym (isolated.begun w case_id) ∙ ap (λ u. at u case_id) (sym began) ∙ here in
      (
        row,
        updated,
        found,
        was_pending,
        result,
        ap (λ u. at u case_id) committed ∙ isolated.committed _ case_id done ∙ stands,
      )

  -- After a call of `FinalizeReviewCase` with another status than pending has succeeded, and as long
  -- as its row stands unchanged, no second call succeeds, and none changes the row. The table of
  -- cases is keyed and transactional, and queries of requests and results leave it alone.
  pub finalize_review_case-once :
      (apart : Leaves db.requests at) (apart_results : Leaves db.results at)
      (case_id reviewer_id other_id : ℕ) (status other_status : ReviewStatus)
      (decision other_decision : Decision) (notes other_notes : String) (t other_t : Time) (w v : W)
      {stored : StoredReviewCase}
      → status ≢ review_status_pending
      → (finalize_review_case (some db) case_id reviewer_id status decision notes t w).0 ≡ ok stored
      → at v case_id ≡ some stored.review_case
      → (e : Error) × ((finalize_review_case
            (some db)
            case_id
            other_id
            other_status
            other_decision
            other_notes
            other_t
            v).0
          ≡ err e)
        × (at
              ((finalize_review_case
                (some db)
                case_id
                other_id
                other_status
                other_decision
                other_notes
                other_t
                v).1)
              case_id
            ≡ some stored.review_case)
  unfolding finalized
  finalize_review_case-once apart apart_results case_id reviewer_id other_id status other_status
        decision other_decision notes other_notes t other_t w v {stored} final h here =
      let (row, updated, _, _, result, _) =
        finalize_review_case-ok apart apart_results case_id reviewer_id status decision notes t w
          h in
      let has_status : stored.review_case.status ≡ status = ap (λ r. ReviewCase.status r) result in
      let (e, failed, stays, _) =
        finalize_review_case-refuses case_id other_id other_status other_decision other_notes
          other_t v stored.review_case here (λ p. final (sym has_status ∙ p)) in
      (e, failed, stays)
