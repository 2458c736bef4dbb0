-- ===== src/Tests/Services.antt =====
-- The service at work in the small world.
use hate_sentry.Base.{◌≡◌, ◌⊎◌, refl, ap, String, none, some, [], ◌∷◌, length, arith}
use hate_sentry.Base.Text.{trim_space, is_space}
use hate_sentry.Base.Decimal.{nonnegative, parse_uint}
use hate_sentry.Float64.{units}
use hate_sentry.Errors.{ok}
use text.Mathlib.TextLemmas.{cons-ne-nil}
use hate_sentry.Moderation.Types.{review_status_pending, review_status_approved, decision_allow}
use hate_sentry.Moderation.Policy.{validate, valid_score, decide}
use hate_sentry.Moderation.PolicySet.{policy_for_version}
use hate_sentry.Moderation.Policy.Thresholds.{score_of}
use hate_sentry.Moderation.Validate.{CheckInput, validate_check_input}
use hate_sentry.Moderation.Validate.{bounded, parse_id}
use hate_sentry.Moderation.Filters.{
  normalize_webhook_retry_limit, normalize_webhook_retry_max_attempts,
}
use hate_sentry.Moderation.Outputs.{
  CheckOutput, ReviewCaseOutput, map_review_case_output, decode_labels, case_status,
}
use hate_sentry.Moderation.Service.{CheckRows}
use hate_sentry.Moderation.Check.{check}
use hate_sentry.Moderation.Check.Rows.{KeepsCase, IsReplay, IsDecided}
use hate_sentry.Moderation.Check.Decides.{FollowsPolicy, check_decides}
use hate_sentry.Moderation.Check.Sound.{replayed, check_sound, check-replay}
use hate_sentry.Moderation.Delivery.{dispatch_final_decision}
use hate_sentry.Moderation.Review.{finalize_review_case}
use hate_sentry.Moderation.Review.Finalized.{IsFinalized, finalize_review_case_sound}
use hate_sentry.Moderation.Retry.{
  WebhookRetryInput, WebhookRetryOutput, retry_failed_webhook_deliveries,
}
use hate_sentry.Moderation.Retry.Batch.{IsTally, retry_failed_webhook_deliveries-IsTally}
use hate_sentry.Tests.Sample.{
  system, service, repository, analyze, dispatch, stored, failed_delivery,
}

-- From an operator, so that nothing was stored for it.
abbrev operator_input : CheckInput
operator_input = record {
  user_id = 1;
  client_id = 0;
  content = " hello ";
  source = "";
  external_id = "";
  actor_id = "";
}

abbrev normalized_input : CheckInput
normalized_input = record operator_input { content = "hello"; source = "api" }

abbrev client_input : CheckInput
client_input = record normalized_input { client_id = 7; external_id = "post-1" }

abbrev pending_output : CheckOutput
pending_output = record {
  request_id = "uuid";
  decision = "review";
  risk_score = score_of 5;
  labels = "hate" ∷ [];
  reason = "a slur";
  policy_version = "strict";
  review_status = review_status_pending;
  final_decision = "";
  reviewed_at = none;
}

repository-KeepsCase : KeepsCase repository
repository-KeepsCase = record {
  kept = λ rows saved w h.
      let saved_eq : saved ≡ rows = cc in ap (λ r. case_status (CheckRows.review_case r)) saved_eq;
}

check_sound_example :
    (input : CheckInput) × (validate_check_input operator_input ≡ ok input)
    × (IsReplay system repository input pending_output
        ⊎ IsDecided system service.policies analyze input pending_output)
unfolding check validate_check_input trim_space is_space policy_for_version decide validate
    valid_score units
check_sound_example =
    check_sound system service repository analyze repository-KeepsCase refl refl operator_input 0
      pending_output refl

check_decides_example :
    ((input : CheckInput) × IsReplay system repository input pending_output)
    ⊎ FollowsPolicy system service.policies pending_output
unfolding check validate_check_input trim_space is_space policy_for_version decide validate
    valid_score units
check_decides_example =
    check_decides system service repository analyze repository-KeepsCase refl refl operator_input 0
      pending_output refl

check-replay_example : check system service client_input 10 ≡ (ok (replayed stored []), 12)
unfolding validate_check_input trim_space is_space
check-replay_example =
    check-replay system service repository analyze client_input client_input stored [] 10 11 refl
      refl refl (λ e. ground (arith, e)) (cons-ne-nil _ _) refl refl

abbrev batch : WebhookRetryInput
batch = record { limit = nonnegative 10; max_attempts = nonnegative 5 }

abbrev zeros : WebhookRetryOutput
zeros = record { attempted = 0; succeeded = 0; failed = 0; skipped = 0 }

retry_failed_webhook_deliveries-IsTally_example :
    (final : WebhookRetryOutput) × ((retry_failed_webhook_deliveries system service batch 10).0
      ≡ ok final)
    × IsTally (length (failed_delivery ∷ [])) final
unfolding normalize_webhook_retry_limit normalize_webhook_retry_max_attempts
retry_failed_webhook_deliveries-IsTally_example =
    retry_failed_webhook_deliveries-IsTally system service repository dispatch batch 10 5
      (failed_delivery ∷ []) 10 refl refl refl refl refl

abbrev shown : String → String → ReviewCaseOutput
shown status final_decision = record {
  id = 3;
  request_id = "old";
  user_id = 1;
  client_id = some 7;
  content = "hello";
  source = "api";
  external_id = "post-1";
  actor_id = "";
  status = status;
  policy_decision = "allow";
  final_decision = final_decision;
  risk_score = score_of 7;
  labels = [];
  reason = "fine";
  policy_version = "strict";
  reviewer_id = some 2;
  review_notes = "seen";
  reviewed_at = some 10;
  created_at = 2;
}

finalize_review_case_sound_example :
    IsFinalized system repository "3" 2 review_status_approved decision_allow " seen "
      (shown review_status_approved decision_allow)
unfolding finalize_review_case dispatch_final_decision map_review_case_output trim_space is_space
    parse_uint bounded parse_id decode_labels
finalize_review_case_sound_example =
    finalize_review_case_sound system service repository "3" 2 review_status_approved decision_allow
      " seen " 10 (shown review_status_approved decision_allow) refl refl
