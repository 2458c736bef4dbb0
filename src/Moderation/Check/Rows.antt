-- ===== src/Moderation/Check/Rows.antt =====
-- internal/moderation/service.go: where the answers of `Check` come from, and what it stores.
use hate_sentry.Base.{
  ℕ, String, Option, none, some, Bool, true, false, Bool-cases, str_eq, not, ◌&&◌, ◌==◌, ◌≡◌, refl,
  ap, sym, ◌∙◌, ◌⊎◌, inl, inr, if◌then◌else◌,
}
use hate_sentry.Errors.{Error, Result, ok, err, Result-cases}
use hate_sentry.Models.{Time}
use hate_sentry.Moderation.Types.{
  ProviderSuggestion, ProviderInfo, DecisionResult, decision_review, review_status_pending,
}
use hate_sentry.Moderation.Policy.{Policy, decide}
use hate_sentry.Moderation.PolicySet.{PolicySet, policy_for_version}
use hate_sentry.Moderation.Validate.{CheckInput, idempotency_key}
use hate_sentry.Moderation.Service.{System, Service, Repository, Analyzer, StoredResult, CheckRows}
use hate_sentry.Moderation.Outputs.{CheckOutput, check_output_from_stored, case_status}
use hate_sentry.Moderation.Delivery.{dispatch_final_decision, is_conflict_error}
use hate_sentry.Moderation.Check.{
  check_rows, pending_case, check_output, answer_stored, found_or_fail, policy_for_check,
  policy_of_client, policy_input, record_check_metric, encoded_labels, after_save, check_fresh,
}

-- The documented behaviour of a created row: the database adds its id and times and keeps the rest.
-- Only the status of the review case is read.
pub record KeepsCase {W : Type 0} (repository : Repository W) : Type 0 where
  pub kept :
      (rows saved : CheckRows) (w : W)
      → (repository.save_check rows w).0 ≡ ok saved
      → case_status saved.review_case ≡ case_status rows.review_case

policy_input-ok : {A : Type 0} (r : Result A) {a : A} → policy_input r ≡ ok a → r ≡ ok a
policy_input-ok (ok b) h = h
policy_input-ok (err e) h = cc

ok_injective : {A : Type 0} {a b : A} → Result.ok a ≡ ok b → a ≡ b
ok_injective h = cc

module _ {W : Type 0} (sys : System W) where
  -- The answer to a check that was made now: a registered policy decided on what the analyzer
  -- suggested, and a case is pending exactly if the decision is to review.
  pub record IsDecided (policies : PolicySet) (analyze : Analyzer W) (input : CheckInput)
      (out : CheckOutput) : Type 0 where
    pub version : String
    pub policy : Policy
    pub suggestion : ProviderSuggestion
    pub provider : ProviderInfo
    pub decision : DecisionResult
    pub at : W
    pub registered : policy_for_version sys.quote policies version ≡ ok policy
    pub suggested : (analyze input.content at).0 ≡ ok (suggestion, provider)
    pub decided_eq : decide policy suggestion ≡ ok decision
    pub decision_eq : out.decision ≡ decision.decision
    pub score_eq : out.risk_score ≡ decision.risk_score
    pub version_eq : out.policy_version ≡ decision.policy_version
    pub pending_eq :
        out.review_status
        ≡ (if str_eq decision.decision decision_review then review_status_pending else "")

  -- The answer to a check whose client has sent the same external id before.
  pub record IsReplay (repository : Repository W) (input : CheckInput) (out : CheckOutput)
      : Type 0 where
    pub stored : StoredResult
    pub at : W
    pub found :
        (repository.find_result_by_client_external_id input.client_id input.external_id at).0
        ≡ ok (some stored)
    pub answered : check_output_from_stored sys stored ≡ ok out

module _ {W : Type 0} (sys : System W) (s : Service W) where
  policy_of_client-ok :
      (user_id : ℕ) (client : Option _) {policy : Policy}
      → policy_of_client sys s user_id client ≡ ok policy
      → (version : String) × (policy_for_version sys.quote s.policies version ≡ ok policy)
  policy_of_client-ok user_id none h = cc
  policy_of_client-ok user_id (some client) h = elim (Bool-cases (client.user_id == user_id)) [
    | inl same ↦ (client.policy_version, policy_input-ok _ (rw same at h))
    | inr other ↦ cc
  ]

  policy_for_check-ok :
      (repository : Repository W) (user_id client_id : ℕ) (w : W) {policy : Policy}
      → (policy_for_check sys s repository user_id client_id w).0 ≡ ok policy
      → (version : String) × (policy_for_version sys.quote s.policies version ≡ ok policy)
  unfolding policy_for_check
  policy_for_check-ok repository user_id client_id w h = elim (Bool-cases (client_id == 0)) [
    | inl operator ↦ ("", rw operator at h)
    | inr keyed ↦ elim (Result-cases ((repository.get_client client_id w).0)) [
      | inl (client, e) ↦ policy_of_client-ok user_id client (rw (keyed, e) at h)
      | inr (x, e) ↦ cc
    ]
  ]

  pub answer_stored-ok :
      (input : CheckInput) (at : Time) (stored : StoredResult) (w : W) {out : CheckOutput}
      → (answer_stored sys s input at stored w).0 ≡ ok out
      → check_output_from_stored sys stored ≡ ok out
  unfolding answer_stored record_check_metric
  answer_stored-ok input at stored w h = h

  module _ (repository : Repository W) (law : KeepsCase repository) where
    found_or_fail-ok :
        (input : CheckInput) (at : Time) (e : Error) (found : Option StoredResult) (w v : W)
        {out : CheckOutput}
        → (repository.find_result_by_client_external_id input.client_id input.external_id v).0
          ≡ ok found
        → (found_or_fail sys s repository input at e found w).0 ≡ ok out
        → IsReplay sys repository input out
    found_or_fail-ok input at e none w v f h = cc
    found_or_fail-ok input at e (some stored) w v f h = record {
      stored = stored;
      at = v;
      found = f;
      answered = answer_stored-ok input at stored w h;
    }

    after_save-ok :
        (request_id : String) (input : CheckInput) (started_at : Time) (provider : ProviderInfo)
        (decision : DecisionResult) (saved : Result CheckRows) (w : W) {out : CheckOutput}
        → (after_save sys s repository request_id input started_at provider decision saved w).0
          ≡ ok out
        → IsReplay sys repository input out
          ⊎ ((rows : CheckRows) × (saved ≡ ok rows)
              × (check_output request_id decision rows.review_case ≡ out))
    unfolding after_save dispatch_final_decision record_check_metric
    after_save-ok request_id input started_at provider decision (ok rows) w h =
        elim (Bool-cases (str_eq decision.decision decision_review)) [
          | inl review ↦ inr (rows, refl, ok_injective (rw review at h))
          | inr other ↦ inr (rows, refl, ok_injective (rw other at h))
        ]
    after_save-ok request_id input started_at provider decision (err e) w h =
        elim (Bool-cases (
          not (str_eq (idempotency_key input.client_id input.external_id) "")
          && is_conflict_error e)) [
            | inl conflict ↦
                elim (Result-cases (
                  (repository.find_result_by_client_external_id input.client_id input.external_id
                    w).0)) [
                      | inl (found, f) ↦
                          inl (
                            found_or_fail-ok input started_at e found _ w f (rw (conflict, f) at h))
                      | inr (x, f) ↦ cc
                    ]
            | inr other ↦ cc
          ]

    is_decided :
        (analyze : Analyzer W) (input : CheckInput) (request_id : String)
        (suggestion : ProviderSuggestion) (provider : ProviderInfo) (decision : DecisionResult)
        (labels_json : String) (at v : W) {policy : Policy} {created : CheckRows}
        {out : CheckOutput}
        → (version : String) × (policy_for_version sys.quote s.policies version ≡ ok policy)
        → (analyze input.content at).0 ≡ ok (suggestion, provider)
        → decide policy suggestion ≡ ok decision
        → (repository.save_check
            (check_rows request_id input suggestion provider decision labels_json)
            v).0
          ≡ ok created
        → check_output request_id decision created.review_case ≡ out
        → IsDecided sys s.policies analyze input out
    unfolding check_output check_rows
    is_decided analyze input request_id suggestion provider decision labels_json at v
          (version, registered) suggested decided_eq saved q =
        record {
          version = version;
          policy = _;
          suggestion = suggestion;
          provider = provider;
          decision = decision;
          at = at;
          registered = registered;
          suggested = suggested;
          decided_eq = decided_eq;
          decision_eq = ap (λ o. CheckOutput.decision o) (sym q);
          score_eq = ap (λ o. CheckOutput.risk_score o) (sym q);
          version_eq = ap (λ o. CheckOutput.policy_version o) (sym q);
          pending_eq =
              ap (λ o. CheckOutput.review_status o) (sym q)
              ∙ law.kept _ _ v saved
              ∙ status_of_case (str_eq decision.decision decision_review);
        }
      where
        status_of_case :
            (b : Bool)
            → case_status (if b then some (pending_case request_id input) else none)
              ≡ (if b then review_status_pending else "")
        status_of_case true = refl
        status_of_case false = refl

    pub check_fresh-ok :
        (analyze : Analyzer W) (input : CheckInput) (started_at : Time) (w : W) {out : CheckOutput}
        → (check_fresh sys s repository analyze input started_at w).0 ≡ ok out
        → IsReplay sys repository input out ⊎ IsDecided sys s.policies analyze input out
    unfolding check_fresh
    check_fresh-ok analyze input started_at w h =
        let m = policy_for_check sys s repository input.user_id input.client_id in
        let w1 = (m w).1 in
        let w2 = (analyze input.content w1).1 in
        elim (Result-cases ((m w).0)) [
          | inr (x, e) ↦ cc
          | inl (policy, e1) ↦ elim (Result-cases ((analyze input.content w1).0)) [
            | inr (x, e) ↦ cc
            | inl ((suggestion, provider), e2) ↦ elim (Result-cases (decide policy suggestion)) [
              | inr (x, e) ↦ cc
              | inl (decision, e3) ↦
                  let (request_id, w3) = sys.new_uuid w2 in
                  elim (Result-cases (encoded_labels (sys.marshal_labels decision.labels))) [
                    | inr (x, e) ↦ cc
                    | inl (labels_json, e4) ↦
                        let rows =
                          check_rows request_id input suggestion provider decision labels_json in
                        let (saved, w4) = repository.save_check rows w3 in
                        elim (after_save-ok request_id input started_at provider decision saved w4
                          (rw (e1, e2, e3, e4) at h)) [
                            | inl replay ↦ inl replay
                            | inr (created, e5, q) ↦ inr (
                                is_decided analyze input request_id suggestion provider decision
                                  labels_json w1 w3
                                  (policy_for_check-ok repository input.user_id input.client_id w
                                    e1)
                                  e2 e3 e5 q)
                          ]
                  ]
            ]
          ]
        ]
