-- ===== src/Moderation/Check/Sound.antt =====
-- internal/moderation/service.go: every answer of `Check` is a replay or was decided now.
use hate_sentry.Base.{
  ℕ, ◌-◌, String, List, [], if◌then◌else◌, Option, none, some, false, Bool-cases, str_eq, str_eq_ne,
  ◌≢◌, not, ◌&&◌, ◌==◌, ◌≡◌, arith, refl, ◌⊎◌, inl, inr,
}
use hate_sentry.Base.Text.{trim_space}
use hate_sentry.Errors.{ok, Result-cases}
use hate_sentry.Models.{Time, ReviewCase}
use hate_sentry.Moderation.Validate.{CheckInput, validate_check_input}
use hate_sentry.Moderation.Service.{
  System, Service, Repository, Analyzer, StoredResult, check_recorded, moderation_client_type,
}
use hate_sentry.Moderation.Outputs.{
  CheckOutput, check_output_from_stored, decode_labels, case_status, case_final_decision,
  case_reviewed_at,
}
use hate_sentry.Moderation.Check.{
  answer_stored, record_check_metric, check_with, stored_or_fresh, check,
}
use hate_sentry.Moderation.Check.Rows.{
  KeepsCase, IsReplay, IsDecided, answer_stored-ok, check_fresh-ok,
}

module _ {W : Type 0} (sys : System W) (s : Service W) (repository : Repository W)
    (law : KeepsCase repository) where
  stored_or_fresh-ok :
      (analyze : Analyzer W) (input : CheckInput) (at : Time) (found : Option StoredResult)
      (w v : W) {out : CheckOutput}
      → (repository.find_result_by_client_external_id input.client_id input.external_id v).0
        ≡ ok found
      → (stored_or_fresh sys s repository analyze input at found w).0 ≡ ok out
      → IsReplay sys repository input out ⊎ IsDecided sys s.policies analyze input out
  stored_or_fresh-ok analyze input at none w v f h =
      check_fresh-ok sys s repository law analyze input at w h
  stored_or_fresh-ok analyze input at (some stored) w v f h = inl (record {
    stored = stored;
    at = v;
    found = f;
    answered = answer_stored-ok sys s input at stored w h;
  })

  check_with-ok :
      (analyze : Analyzer W) (input : CheckInput) (at : Time) (w : W) {out : CheckOutput}
      → (check_with sys s repository analyze input at w).0 ≡ ok out
      → IsReplay sys repository input out ⊎ IsDecided sys s.policies analyze input out
  unfolding check_with
  check_with-ok analyze input at w h =
      elim (Bool-cases (not (input.client_id == 0) && not (str_eq input.external_id ""))) [
        | inl keyed ↦
            elim (Result-cases (
              (repository.find_result_by_client_external_id input.client_id input.external_id
                w).0)) [
                  | inl (found, f) ↦
                      stored_or_fresh-ok analyze input at found _ w f (rw (keyed, f) at h)
                  | inr (x, f) ↦ cc
                ]
        | inr other ↦ check_fresh-ok sys s repository law analyze input at w (rw other at h)
      ]

-- Every answer that `Check` gives, on a service with an analyzer and a repository, is a replay or is
-- decided now. It is a replay if the repository returned a stored result for the client and the
-- external id; otherwise a registered policy has decided on what the analyzer suggested for the
-- checked content, and the answer says that a review is pending exactly if the decision is to
-- review. The repository keeps the status of the review case that it stores.
pub check_sound :
    {W : Type 0} (sys : System W) (s : Service W) (repository : Repository W) (analyze : Analyzer W)
    → KeepsCase repository
    → s.repository ≡ some repository
    → s.analyzer ≡ some analyze
    → (raw : CheckInput) (w : W) (out : CheckOutput) → (check sys s raw w).0 ≡ ok out
    → (input : CheckInput) × (validate_check_input raw ≡ ok input)
      × (IsReplay sys repository input out ⊎ IsDecided sys s.policies analyze input out)
unfolding check
check_sound sys s repository analyze law r a raw w out h =
    elim (Result-cases (validate_check_input raw)) [
      | inr (x, e) ↦ cc
      | inl (input, e) ↦ (
        input,
        e,
        check_with-ok sys (record s { repository = some repository; analyzer = some analyze })
            repository law analyze input ((sys.now w).0) ((sys.now w).1) (rw (e, a, r) at h),
      )
    ]

-- The labels of a stored result, of which a blank text has none.
abbrev pub HasLabels : {W : Type 0} → System W → String → List String → Type 0
HasLabels sys text labels =
    (if str_eq (trim_space text) "" then ok [] else sys.unmarshal_labels text) ≡ ok labels

decode_labels-HasLabels :
    {W : Type 0} (sys : System W) (text : String) (labels : List String)
    → HasLabels sys text labels
    → decode_labels sys text ≡ ok labels
unfolding decode_labels
decode_labels-HasLabels sys text labels h = elim (Bool-cases (str_eq (trim_space text) "")) [
  | inl blank ↦ let same : ok [] ≡ ok labels = rw blank at h in rw blank same
  | inr filled ↦
      let same : sys.unmarshal_labels text ≡ ok labels = rw filled at h in rw (filled, same) refl
]

api_key_lem : (client_id : ℕ) → client_id ≢ 0 → moderation_client_type client_id ≡ "api_key"
unfolding moderation_client_type
api_key_lem client_id client =
    let not_zero : (client_id == 0) ≡ false = ground arith in rw not_zero refl

-- A field of the review case, if there is one.
abbrev of_case : {A : Type 0} → (ReviewCase → A) → A → Option ReviewCase → A
of_case field absent none = absent
of_case field absent (some c) = field c

case_status_lem : (c : Option ReviewCase) → case_status c ≡ of_case (λ c. c.status) "" c
case_status_lem none = refl
case_status_lem (some c) = refl

case_final_decision_lem :
    (c : Option ReviewCase) → case_final_decision c ≡ of_case (λ c. c.final_decision) "" c
case_final_decision_lem none = refl
case_final_decision_lem (some c) = refl

case_reviewed_at_lem :
    (c : Option ReviewCase) → case_reviewed_at c ≡ of_case (λ c. c.reviewed_at) none c
case_reviewed_at_lem none = refl
case_reviewed_at_lem (some c) = refl

-- The answer with the fields of the stored rows.
abbrev pub replayed : StoredResult → List String → CheckOutput
replayed stored labels = record {
  request_id = stored.result.request_id;
  decision = stored.result.decision;
  risk_score = stored.result.risk_score;
  labels = labels;
  reason = stored.result.reason;
  policy_version = stored.result.policy_version;
  review_status = of_case (λ c. c.status) "" stored.review_case;
  final_decision = of_case (λ c. c.final_decision) "" stored.review_case;
  reviewed_at = of_case (λ c. c.reviewed_at) none stored.review_case;
}

-- A client that sends an external id again gets the stored result: on a service with an analyzer and
-- a repository, when the input is accepted with a client and an external id and the repository finds
-- a stored result for them, whose labels are decoded, `Check` answers with the fields of the stored
-- rows. From the world that the lookup left it reads the clock and, where there are metrics, records
-- one check by an API key with the stored decision and provider and the time that has
-- passed. It does nothing else, so it neither asks the analyzer nor stores anything.
pub check-replay :
    {W : Type 0} (sys : System W) (s : Service W) (repository : Repository W) (analyze : Analyzer W)
    (raw input : CheckInput) (stored : StoredResult) (labels : List String) (w v : W)
    → s.repository ≡ some repository
    → s.analyzer ≡ some analyze
    → validate_check_input raw ≡ ok input
    → input.client_id ≢ 0
    → input.external_id ≢ ""
    → repository.find_result_by_client_external_id input.client_id input.external_id ((sys.now w).1)
      ≡ (ok (some stored), v)
    → HasLabels sys stored.result.labels labels
    → check sys s raw w ≡ (
      ok (replayed stored labels),
      if s.has_metrics
          then sys.record_metric
              (check_recorded stored.result.decision stored.result.provider "api_key"
                ((sys.now v).0 - (sys.now w).0))
              (sys.now v).1
          else (sys.now v).1,
    )
unfolding check check_with answer_stored record_check_metric check_output_from_stored
check-replay sys s repository analyze raw input stored labels w v r a e client external f h =
    let not_zero : (input.client_id == 0) ≡ false = ground arith in
    let decoded = decode_labels-HasLabels sys stored.result.labels labels h in
    rw
      (
        e,
        a,
        r,
        not_zero,
        str_eq_ne input.external_id "" external,
        f,
        decoded,
        case_status_lem stored.review_case,
        case_final_decision_lem stored.review_case,
        case_reviewed_at_lem stored.review_case,
        api_key_lem input.client_id client,
      )
      refl
