-- ===== src/App.antt =====
-- internal/app/app.go: the policies of the configuration, and the worker that retries webhooks.
--
-- `Run`, which connects the parts, and the consumer of the queue are not modelled. The worker's
-- goroutine runs a batch at once and one at every tick.
pub mod Worker
use hate_sentry.Base.{
  String, Bool, true, false, not, ◌||◌, ◌&&◌, ◌==◌, Option, none, some, List, [], ◌∷◌,
  if◌then◌else◌,
}
use hate_sentry.Base.Decimal.{Integer, nonnegative, negative}
use hate_sentry.Base.Integers.{int_leb}
use hate_sentry.Errors.{Error, Result, ok, err, ◌>>=◌}
use hate_sentry.Exec.{Exec}
use hate_sentry.Config.{ModerationPolicyConfig, ModerationConfig, WebhookRetryConfig}
use hate_sentry.Moderation.Policy.{Policy, new_policy}
use hate_sentry.Moderation.PolicySet.{PolicySet, new_policy_set}
use hate_sentry.Moderation.Retry.{WebhookRetryInput, WebhookRetryOutput}

abbrev new_configured : ModerationPolicyConfig → Result Policy
new_configured cfg = new_policy cfg.version cfg.review_threshold cfg.block_threshold

-- The loop of `moderationPolicySetFromConfig`.
unfoldable pub new_policies : List ModerationPolicyConfig → Result (List Policy)
new_policies [] = ok []
new_policies (cfg ∷ rest) = do
  policy ← new_configured cfg
  policies ← new_policies rest
  ok (policy ∷ policies)

-- `moderationPolicySetFromConfig`, with the `%q` of `fmt`.
unfoldable pub moderation_policy_set_from_config :
    (String → String) → ModerationConfig → Result PolicySet
unfolding new_policies
moderation_policy_set_from_config quote cfg = do
  default_policy ← new_configured cfg.policy
  policies ← new_policies cfg.policies
  new_policy_set quote default_policy policies

-- `webhookRetryService`.
abbrev pub WebhookRetryService : Type 0 → Type 0
WebhookRetryService W = WebhookRetryInput → Exec W WebhookRetryOutput

-- `startWebhookRetryWorker`: whether the worker starts.
unfoldable pub start_webhook_retry_worker :
    {W : Type 0} → Option (WebhookRetryService W) → WebhookRetryConfig → Bool
start_webhook_retry_worker none cfg = false
start_webhook_retry_worker (some service) cfg = not (
    not cfg.enabled
    || int_leb cfg.interval (nonnegative 0)
    || int_leb cfg.batch_size (nonnegative 0)
    || int_leb cfg.max_attempts (nonnegative 1))

-- The line that a batch leaves in the log, if any.
pub data BatchLog : Type 0 where
  batch_failed : Error → BatchLog
  nothing_to_do : BatchLog
  batch_completed : WebhookRetryOutput → BatchLog

abbrev pub batch_log : Result WebhookRetryOutput → BatchLog
batch_log (err e) = batch_failed e
batch_log (ok output) =
    if (output.attempted == 0) && (output.failed == 0) && (output.skipped == 0)
    then nothing_to_do
    else batch_completed output

abbrev pub batch_input : WebhookRetryConfig → WebhookRetryInput
batch_input cfg = record { limit = cfg.batch_size; max_attempts = cfg.max_attempts }

-- `runWebhookRetryBatch`.
unfoldable pub run_webhook_retry_batch :
    {W : Type 0} → WebhookRetryService W → WebhookRetryConfig → W → BatchLog × W
run_webhook_retry_batch service cfg w =
    let (r, w') = service (batch_input cfg) w in (batch_log r, w')
