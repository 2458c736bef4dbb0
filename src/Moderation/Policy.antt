-- ===== src/Moderation/Policy.antt =====
-- internal/moderation/policy.go: a policy turns a provider's score into a decision.
pub mod Thresholds
use hate_sentry.Base.{String, Bool, not, ◌&&◌, str_eq, if◌then◌else◌}
use hate_sentry.Base.Text.{trim_space}
use hate_sentry.Float64.{
  Float64, finite, units, float_le, float_lt, float_zero, float_one, is_nan, is_inf,
}
use hate_sentry.Errors.{Result, ok, err, plain_error, reject_if, ◌>>◌, ◌>>=◌}
use hate_sentry.Moderation.Types.{
  Decision, decision_allow, decision_review, decision_block, ProviderSuggestion, DecisionResult,
}

pub record Policy : Type 0 where
  pub version : String
  pub review_threshold : Float64
  pub block_threshold : Float64

unfoldable pub valid_score : Float64 → Bool
valid_score score =
    not (is_nan score)
    && not (is_inf score)
    && float_le float_zero score
    && float_le score float_one

-- `Policy.Validate`: the error is nil where the result is `ok`.
unfoldable pub validate : Policy → Result (Unit {0})
validate p = do
  reject_if (str_eq (trim_space p.version) "") (plain_error "policy version is required")
  reject_if (not (valid_score p.review_threshold))
      (plain_error "review threshold must be between 0 and 1")
  reject_if (not (valid_score p.block_threshold))
      (plain_error "block threshold must be between 0 and 1")
  reject_if (float_le p.block_threshold p.review_threshold)
      (plain_error "review threshold must be less than block threshold")

unfoldable pub new_policy : String → Float64 → Float64 → Result Policy
unfolding validate
new_policy version review_threshold block_threshold =
    let policy : Policy = record {
      version = trim_space version;
      review_threshold = review_threshold;
      block_threshold = block_threshold;
    } in
    do validate policy; ok policy

-- The switch of `Decide`.
abbrev pub decision_of : Policy → Float64 → Decision
decision_of p score =
    if float_le p.block_threshold score
    then decision_block
    else if float_le p.review_threshold score
    then decision_review
    else decision_allow

-- `Policy.Decide`.
unfoldable pub decide : Policy → ProviderSuggestion → Result DecisionResult
decide p suggestion = do
  validate p
  reject_if (not (valid_score suggestion.risk_score))
      (plain_error "risk_score must be between 0 and 1")
  ok (record {
    decision = decision_of p suggestion.risk_score;
    risk_score = suggestion.risk_score;
    labels = suggestion.labels;
    reason = suggestion.reason;
    policy_version = p.version;
  })
