-- ===== src/Moderation/Check.antt =====
-- internal/moderation/service.go: `Check`, the synchronous moderation of one text.
pub mod Rows
pub mod Sound
pub mod Decides
use hate_sentry.Base.{
  ℕ, zero, suc, ◌+◌, ◌-◌, String, Option, none, some, List, [], ◌∷◌, Bool, true, false, not, ◌&&◌,
  ◌||◌, str_eq, ◌==◌, if◌then◌else◌,
}
use hate_sentry.Errors.{
  Error, Result, ok, err, internal, validation_error, record_not_found_error, configuration_error,
  raised, fail, with_details, error_text,
}
use hate_sentry.Exec.{Exec, pure, raise, lift, run, attempt, require, act, continue, ◌>>=◌, ◌>>◌}
use hate_sentry.Models.{Time, ClientApplication, ModerationRequest, ModerationResult, ReviewCase}
use hate_sentry.Moderation.Types.{
  ProviderSuggestion, ProviderInfo, DecisionResult, decision_review, review_status_pending,
}
use hate_sentry.Moderation.Policy.{Policy, decide}
use hate_sentry.Moderation.PolicySet.{policy_for_version}
use hate_sentry.Moderation.Validate.{
  CheckInput, validate_check_input, idempotency_key, optional_uint, optional_string,
}
use hate_sentry.Moderation.Service.{
  System, Service, Repository, Analyzer, StoredResult, CheckRows, Metric, check_recorded,
  record_metric, moderation_client_type,
}
use hate_sentry.Moderation.Outputs.{CheckOutput, check_output_from_stored, case_status}
use hate_sentry.Moderation.Delivery.{dispatch_final_decision, is_conflict_error}

-- The error of a policy becomes the details of a validation error.
abbrev policy_input : {A : Type 0} → Result A → Result A
policy_input (ok a) = ok a
policy_input (err e) =
    fail (with_details (validation_error "invalid moderation policy input") (error_text e))

abbrev encoded_labels : Result String → Result String
encoded_labels (ok s) = ok s
encoded_labels (err e) =
    fail (with_details (internal "failed to encode moderation labels") (error_text e))

abbrev pub pending_case : String → CheckInput → ReviewCase
pending_case request_id input = record {
  id = 0;
  created_at = 0;
  updated_at = 0;
  request_id = request_id;
  user_id = input.user_id;
  client_id = optional_uint input.client_id;
  status = review_status_pending;
  reviewer_id = none;
  final_decision = "";
  review_notes = "";
  reviewed_at = none;
}

-- The rows that `Check` builds and hands to `SaveCheck`.
unfoldable pub check_rows :
    String → CheckInput → ProviderSuggestion → ProviderInfo → DecisionResult → String → CheckRows
check_rows request_id input suggestion provider decision labels_json = record {
  request = record {
    id = 0;
    created_at = 0;
    updated_at = 0;
    request_id = request_id;
    user_id = input.user_id;
    client_id = optional_uint input.client_id;
    idempotency_key = optional_string (idempotency_key input.client_id input.external_id);
    content = input.content;
    source = input.source;
    external_id = input.external_id;
    actor_id = input.actor_id;
    status = "completed";
  };
  result = record {
    id = 0;
    created_at = 0;
    updated_at = 0;
    request_id = request_id;
    user_id = input.user_id;
    client_id = optional_uint input.client_id;
    provider = provider.provider;
    model = provider.model;
    raw_output = suggestion.raw_output;
    risk_score = decision.risk_score;
    labels = labels_json;
    decision = decision.decision;
    reason = decision.reason;
    policy_version = decision.policy_version;
  };
  review_case =
      if str_eq decision.decision decision_review
      then some (pending_case request_id input)
      else none;
}

-- The answer to a check that was decided now.
unfoldable pub check_output : String → DecisionResult → Option ReviewCase → CheckOutput
check_output request_id decision review_case = record {
  request_id = request_id;
  decision = decision.decision;
  risk_score = decision.risk_score;
  labels = decision.labels;
  reason = decision.reason;
  policy_version = decision.policy_version;
  review_status = case_status review_case;
  final_decision = "";
  reviewed_at = none;
}

module _ {W : Type 0} (sys : System W) (s : Service W) where
  -- `recordCheckMetric`, with `time.Since(startedAt)`.
  unfoldable pub record_check_metric : String → String → ℕ → Time → Exec W (Unit {0})
  record_check_metric decision provider client_id started_at = do
    ended_at ← run sys.now
    record_metric sys s (
        check_recorded decision provider (moderation_client_type client_id) (ended_at - started_at))

  -- What both early returns do with a stored result.
  unfoldable pub answer_stored : CheckInput → Time → StoredResult → Exec W CheckOutput
  answer_stored input started_at stored = do
    record_check_metric stored.result.decision stored.result.provider input.client_id started_at
    lift (check_output_from_stored sys stored)

  abbrev policy_of_client : ℕ → Option ClientApplication → Result Policy
  policy_of_client user_id none = fail (record_not_found_error "Client not found")
  policy_of_client user_id (some client) =
      if not (client.user_id == user_id)
      then fail (record_not_found_error "Client not found")
      else policy_input (policy_for_version sys.quote s.policies client.policy_version)

  module _ (repository : Repository W) where
    -- `policyForCheck`.
    unfoldable pub policy_for_check : ℕ → ℕ → Exec W Policy
    policy_for_check user_id client_id =
        if client_id == 0
        then lift (policy_for_version sys.quote s.policies "")
        else do client ← repository.get_client client_id; lift (policy_of_client user_id client)

    abbrev found_or_fail : CheckInput → Time → Error → Option StoredResult → Exec W CheckOutput
    found_or_fail input started_at e none = raise e
    found_or_fail input started_at e (some stored) = answer_stored input started_at stored

    -- What follows `SaveCheck`.
    unfoldable pub after_save :
        String
        → CheckInput
        → Time
        → ProviderInfo
        → DecisionResult
        → Result CheckRows
        → Exec W CheckOutput
    unfolding answer_stored record_check_metric
    after_save request_id input started_at provider decision (err e) =
        if not (str_eq (idempotency_key input.client_id input.external_id) "")
          && is_conflict_error e
        then (do
          stored ← repository.find_result_by_client_external_id input.client_id input.external_id
          found_or_fail input started_at e stored)
        else raise e
    after_save request_id input started_at provider decision (ok saved) = do
      if str_eq decision.decision decision_review
          then pure tt
          else dispatch_final_decision sys s repository
              (record { request = saved.request; result = saved.result; review_case = none }) "" ""
      record_check_metric decision.decision provider.provider input.client_id started_at
      pure (check_output request_id decision saved.review_case)

    -- The check of a text that has no stored answer.
    unfoldable pub check_fresh : Analyzer W → CheckInput → Time → Exec W CheckOutput
    unfolding after_save check_rows check_output policy_for_check
    check_fresh analyze input started_at = do
      policy ← policy_for_check input.user_id input.client_id
      (suggestion, provider) ← analyze input.content
      decision ← lift (policy_input (decide policy suggestion))
      request_id ← run sys.new_uuid
      labels_json ← lift (encoded_labels (sys.marshal_labels decision.labels))
      saved ← attempt (
          repository.save_check
            (check_rows request_id input suggestion provider decision labels_json))
      after_save request_id input started_at provider decision saved

    abbrev stored_or_fresh :
        Analyzer W → CheckInput → Time → Option StoredResult → Exec W CheckOutput
    stored_or_fresh analyze input started_at none = check_fresh analyze input started_at
    stored_or_fresh analyze input started_at (some stored) = answer_stored input started_at stored

    unfoldable pub check_with : Analyzer W → CheckInput → Time → Exec W CheckOutput
    unfolding answer_stored record_check_metric check_fresh
    check_with analyze input started_at =
        if not (input.client_id == 0) && not (str_eq input.external_id "")
        then (do
          stored ← repository.find_result_by_client_external_id input.client_id input.external_id
          stored_or_fresh analyze input started_at stored)
        else check_fresh analyze input started_at

  -- `Check`.
  unfoldable pub check : CheckInput → Exec W CheckOutput
  unfolding check_with
  check raw = do
    input ← lift (validate_check_input raw)
    started_at ← run sys.now
    analyze ← require s.analyzer (configuration_error "moderation analyzer is not configured")
    repository ←
        require s.repository (configuration_error "moderation repository is not configured")
    check_with repository analyze input started_at
