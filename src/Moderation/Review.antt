-- ===== src/Moderation/Review.antt =====
-- internal/moderation/service.go: operators list, read and finalize review cases.
pub mod Finalized
use hate_sentry.Base.{
  ℕ, ◌-◌, String, Option, none, some, List, [], ◌∷◌, Bool, true, false, not, ◌&&◌, str_eq, ◌==◌,
  ltb, if◌then◌else◌,
}
use hate_sentry.Base.Text.{trim_space}
use hate_sentry.Errors.{Result, ok, err, unauthorized_error, configuration_error, raised, reject_if}
use hate_sentry.Exec.{Exec, pure, raise, lift, run, require, act, continue, ◌>>=◌, ◌>>◌}
use hate_sentry.Models.{Time, ReviewCase}
use hate_sentry.Moderation.Types.{
  Decision, ReviewStatus, decision_allow, decision_block, review_status_approved,
  review_status_rejected, review_status_mistake,
}
use hate_sentry.Moderation.Validate.{invalid, max_review_notes_len, parse_review_case_id, bounded}
use hate_sentry.Moderation.Filters.{
  CursorCodec, ReviewCaseCursor, normalize_review_case_filter, encode_review_case_cursor,
}
use hate_sentry.Moderation.Service.{
  System, Service, Repository, StoredResult, StoredReviewCase, Metric, review_finalized,
  record_metric,
}
use hate_sentry.Moderation.Outputs.{ReviewCaseOutput, map_review_case_output, map_all}
use hate_sentry.Moderation.Delivery.{dispatch_final_decision}

pub record ReviewCaseListOutput : Type 0 where
  pub items : List ReviewCaseOutput
  pub next_cursor : String

-- What every operation for operators tests first.
abbrev pub authenticated : ℕ → Result (Unit {0})
authenticated operator_id =
    reject_if (operator_id == 0) (raised (unauthorized_error "User not authenticated"))

abbrev pub configured : {W : Type 0} → Service W → Exec W (Repository W)
configured s = require s.repository (configuration_error "moderation repository is not configured")

abbrev pub next_page : CursorCodec → Option ReviewCaseCursor → Result String
next_page codec none = ok ""
next_page codec (some cursor) = encode_review_case_cursor codec cursor

module _ {W : Type 0} (sys : System W) (s : Service W) where
  -- `ListReviewCases`.
  unfoldable pub list_review_cases :
      CursorCodec → ℕ → String → String → String → Exec W ReviewCaseListOutput
  list_review_cases codec reviewer_id status limit cursor = do
    lift (authenticated reviewer_id)
    repository ← configured s
    filter ← lift (normalize_review_case_filter codec status limit cursor)
    page ← repository.list_review_cases filter
    items ← lift (map_all (map_review_case_output sys) page.items)
    next_cursor ← lift (next_page codec page.next_cursor)
    pure (record { items = items; next_cursor = next_cursor })

  -- `GetReviewCase`.
  unfoldable pub get_review_case : ℕ → String → Exec W ReviewCaseOutput
  get_review_case reviewer_id case_id = do
    lift (authenticated reviewer_id)
    repository ← configured s
    id ← lift (parse_review_case_id case_id)
    stored ← repository.get_review_case id
    lift (map_review_case_output sys stored)

  -- `recordReviewFinalizedMetric`; a case is finalized after it was created.
  abbrev pub record_review_finalized_metric : ReviewCase → Exec W (Unit {0})
  record_review_finalized_metric review_case w = (
    ok tt,
    elim review_case.reviewed_at [
      | none ↦ w
      | some at ↦
          (record_metric sys s
            (review_finalized review_case.status review_case.final_decision
              (at - review_case.created_at))
            w).1
    ],
  )

  -- `finalizeReviewCase`.
  unfoldable pub finalize_review_case :
      String → ℕ → ReviewStatus → Decision → String → Exec W ReviewCaseOutput
  finalize_review_case case_id reviewer_id status final_decision raw_notes = do
    lift (authenticated reviewer_id)
    repository ← configured s
    id ← lift (parse_review_case_id case_id)
    let notes = trim_space raw_notes
    lift (bounded "review notes" max_review_notes_len notes)
    at ← run sys.now
    stored ← repository.finalize_review_case id reviewer_id status final_decision notes at
    output ← lift (map_review_case_output sys stored)
    record_review_finalized_metric stored.review_case
    dispatch_final_decision sys s repository
        (record { request = stored.request; result = stored.result; review_case = none }) status
        final_decision
    pure output

  -- `ApproveReviewCase`.
  unfoldable pub approve_review_case : String → ℕ → String → Exec W ReviewCaseOutput
  unfolding finalize_review_case
  approve_review_case case_id reviewer_id notes =
      finalize_review_case case_id reviewer_id review_status_approved decision_allow notes

  -- `RejectReviewCase`.
  unfoldable pub reject_review_case : String → ℕ → String → Exec W ReviewCaseOutput
  unfolding finalize_review_case
  reject_review_case case_id reviewer_id notes =
      finalize_review_case case_id reviewer_id review_status_rejected decision_block notes

  -- `MarkReviewMistake`.
  unfoldable pub mark_review_mistake : String → ℕ → Decision → String → Exec W ReviewCaseOutput
  unfolding finalize_review_case
  mark_review_mistake case_id reviewer_id final_decision notes = do
    lift (
        reject_if
          (not (str_eq final_decision decision_allow) && not (str_eq final_decision decision_block))
          (invalid "final_decision must be allow or block"))
    finalize_review_case case_id reviewer_id review_status_mistake final_decision notes
