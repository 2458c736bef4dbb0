-- ===== src/Moderation/Review/Finalized.antt =====
-- internal/moderation/service.go: what reaches the repository when an operator finalizes a case.
use hate_sentry.Base.{
  ℕ, ◌≤◌, String, len, some, Bool-cases, arith, eq_iff, str_eq, ◌==◌, ◌≡◌, ◌≢◌, ◌∙◌, ◌⊎◌, inl, inr,
}
use hate_sentry.Base.Text.{trim_space}
use hate_sentry.Errors.{ok, Result-cases}
use hate_sentry.Models.{Time}
use hate_sentry.Moderation.Types.{
  Decision, ReviewStatus, decision_allow, decision_block, review_status_mistake,
}
use hate_sentry.Moderation.Validate.{max_review_notes_len, bounded, parse_review_case_id}
use hate_sentry.Moderation.Service.{System, Service, Repository, StoredReviewCase}
use hate_sentry.Moderation.Outputs.{ReviewCaseOutput, map_review_case_output}
use hate_sentry.Moderation.Delivery.{dispatch_final_decision}
use hate_sentry.Moderation.Review.{finalize_review_case, mark_review_mistake}

-- The answer shows what the repository finalized, for an operator, with notes that fit.
pub record IsFinalized {W : Type 0} (sys : System W) (repository : Repository W) (case_id : String)
    (reviewer_id : ℕ) (status : ReviewStatus) (final_decision : Decision) (notes : String)
    (out : ReviewCaseOutput) : Type 0 where
  pub id : ℕ
  pub time : Time
  pub at : W
  pub stored : StoredReviewCase
  pub operator : reviewer_id ≢ 0
  pub id_eq : parse_review_case_id case_id ≡ ok id
  pub fits : len (trim_space notes) ≤ max_review_notes_len
  pub finalized :
      (repository.finalize_review_case id reviewer_id status final_decision
        (trim_space notes)
        time
        at).0
      ≡ ok stored
  pub shown : map_review_case_output sys stored ≡ ok out

bounded-fits : (field s : String) (limit : ℕ) → bounded field limit s ≡ ok tt → len s ≤ limit
unfolding bounded
bounded-fits field s limit h = ground arith

-- An operator's decision answers only with what the repository returned for it: with the parsed
-- id, the operator, who is not 0, the status and the final decision as given, and the trimmed
-- notes, which have at most 2000 bytes. The service has a repository.
pub finalize_review_case_sound :
    {W : Type 0} (sys : System W) (s : Service W) (repository : Repository W) (case_id : String)
    (reviewer_id : ℕ) (status : ReviewStatus) (final_decision : Decision) (notes : String) (w : W)
    (out : ReviewCaseOutput)
    → s.repository ≡ some repository
    → (finalize_review_case sys s case_id reviewer_id status final_decision notes w).0 ≡ ok out
    → IsFinalized sys repository case_id reviewer_id status final_decision notes out
unfolding finalize_review_case dispatch_final_decision
finalize_review_case_sound sys s repository case_id reviewer_id status final_decision notes w out r
      h =
    elim (Bool-cases (reviewer_id == 0)) [
      | inl nobody ↦ cc
      | inr operator ↦ elim (Result-cases (parse_review_case_id case_id)) [
        | inr (x, e) ↦ cc
        | inl (id, e1) ↦
            elim (Result-cases (bounded "review notes" max_review_notes_len (trim_space notes))) [
              | inr (x, e) ↦ cc
              | inl (_, e2) ↦
                  elim (Result-cases (
                    (repository.finalize_review_case id reviewer_id status final_decision
                      (trim_space notes) ((sys.now w).0) ((sys.now w).1)).0)) [
                        | inr (x, e) ↦ cc
                        | inl (stored, e3) ↦ record {
                          id = id;
                          time = (sys.now w).0;
                          at = (sys.now w).1;
                          stored = stored;
                          operator = ground arith;
                          id_eq = e1;
                          fits = bounded-fits _ _ _ e2;
                          finalized = e3;
                          shown = elim (Result-cases (map_review_case_output sys stored)) [
                            | inl (o, e4) ↦ e4 ∙ rw (r, operator, e1, e2, e3, e4) at h
                            | inr (x, e4) ↦ cc
                          ];
                        }
                      ]
            ]
      ]
    ]

-- On a service with a repository, an operator's word that a decision was mistaken is finalized as a
-- mistake, and only with the final decision to allow or to block: the answer shows what the
-- repository returned for the parsed id, the operator, who is not 0, and the trimmed notes, which have
-- at most 2000 bytes.
pub mark_review_mistake_sound :
    {W : Type 0} (sys : System W) (s : Service W) (repository : Repository W) (case_id : String)
    (reviewer_id : ℕ) (final_decision : Decision) (notes : String) (w : W) (out : ReviewCaseOutput)
    → s.repository ≡ some repository
    → (mark_review_mistake sys s case_id reviewer_id final_decision notes w).0 ≡ ok out
    → ((final_decision ≡ decision_allow) ⊎ (final_decision ≡ decision_block))
      × IsFinalized sys repository case_id reviewer_id review_status_mistake final_decision notes
          out
unfolding mark_review_mistake
mark_review_mistake_sound sys s repository case_id reviewer_id final_decision notes w out r h =
    elim (Bool-cases (str_eq final_decision decision_allow)) [
      | inl allow ↦ (
        inl ((eq_iff _ _).0 allow),
        finalize_review_case_sound sys s repository case_id reviewer_id review_status_mistake
            final_decision notes w out r (rw allow at h),
      )
      | inr other ↦ elim (Bool-cases (str_eq final_decision decision_block)) [
        | inl block ↦ (
          inr ((eq_iff _ _).0 block),
          finalize_review_case_sound sys s repository case_id reviewer_id review_status_mistake
              final_decision notes w out r (rw (other, block) at h),
        )
        | inr neither ↦ cc
      ]
    ]
