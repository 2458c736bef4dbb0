-- ===== src/App/Worker.antt =====
-- internal/app/app.go: what the accepted configuration makes of the policies and of the worker.
use hate_sentry.Base.{
  ℕ, zero, suc, ◌≤◌, ◌<◌, ◌-◌, String, true, false, ◌≡◌, inl, inr, refl, sym, ap, ◌∙◌, some, List,
  [], ◌∷◌, length, Occurs, Bool-cases, if◌then◌else◌, ltb, arith,
}
use hate_sentry.Base.Text.{trim_space, trim_space_idem}
use hate_sentry.Base.Decimal.{nonnegative, itoa, emit}
use hate_sentry.Base.Integers.{int_leb}
use hate_sentry.Errors.{ok, err, raised, validation_error, ok-injective, >>=-eq-ok}
use hate_sentry.Config.{Config, ModerationPolicyConfig, ModerationConfig, WebhookRetryConfig}
use hate_sentry.Config.Overrides.{Environment, load}
use hate_sentry.Config.Accepted.{IsRetry}
use hate_sentry.Config.Loaded.{load-ok}
use hate_sentry.Models.{WebhookDelivery}
use hate_sentry.Moderation.Policy.{Policy, validate, new_policy}
use hate_sentry.Moderation.PolicySet.{PolicySet, policy_for_version}
use hate_sentry.Moderation.PolicySet.Register.{policy_for_version-registered}
use hate_sentry.Moderation.Service.{System, Service, Repository, Dispatcher, retry_batch}
use hate_sentry.Moderation.Validate.{invalid}
use hate_sentry.Moderation.Filters.{
  normalize_webhook_retry_limit, normalize_webhook_retry_max_attempts,
}
use hate_sentry.Moderation.Retry.{
  webhook_retry_lease, WebhookRetryOutput, retry_failed_webhook_deliveries,
}
use hate_sentry.Moderation.Retry.Batch.{IsTally, retry_failed_webhook_deliveries-IsTally}
use hate_sentry.App.{
  new_configured, new_policies, moderation_policy_set_from_config, WebhookRetryService,
  start_webhook_retry_worker, batch_failed, batch_log, batch_input, run_webhook_retry_batch,
}

-- The policy that a part of the configuration describes.
abbrev pub Describes : ModerationPolicyConfig → Policy → Type 0
Describes cfg policy =
    (policy.version ≡ trim_space cfg.version)
    × (policy.review_threshold ≡ cfg.review_threshold)
    × (policy.block_threshold ≡ cfg.block_threshold)
    × (validate policy ≡ ok tt)

new_policy-Describes :
    (cfg : ModerationPolicyConfig) {policy : Policy}
    → new_configured cfg ≡ ok policy
    → Describes cfg policy
unfolding new_policy
new_policy-Describes cfg {policy} h =
    let made : Policy = record {
      version = trim_space cfg.version;
      review_threshold = cfg.review_threshold;
      block_threshold = cfg.block_threshold;
    } in
    let (_, valid, same) = >>=-eq-ok (validate made) _ h in
    let equal : made ≡ policy = ok-injective same in rw (sym equal) (refl, refl, refl, valid)

new_policies-each :
    (cfgs : List ModerationPolicyConfig) (cfg : ModerationPolicyConfig) {policies : List Policy}
    → new_policies cfgs ≡ ok policies
    → Occurs cfg cfgs
    → (policy : Policy) × Occurs policy policies × Describes cfg policy
unfolding new_policies
new_policies-each [] cfg h here = absurd here
new_policies-each (first ∷ rest) cfg {policies} h here =
    let (policy, made, h1) = >>=-eq-ok (new_configured first) _ h in
    let (others, listed, h2) = >>=-eq-ok (new_policies rest) _ h1 in
    let same : policy ∷ others ≡ policies = ok-injective h2 in
    elim here [
      | inl e ↦ (policy, rw (sym same) (inl refl), rw e (new_policy-Describes first made))
      | inr later ↦
          let (found, there, describes) = new_policies-each rest cfg listed later in
          (found, rw (sym same) (inr there), describes)
    ]

module _ (quote : String → String) where
  -- Every policy of an accepted configuration, the default one included, is found under the version
  -- that the configuration writes: valid, with the trimmed version and the thresholds as written.
  pub moderation_policy_set_from_config-finds :
      (cfg : ModerationConfig) (configured : ModerationPolicyConfig) (set : PolicySet)
      → moderation_policy_set_from_config quote cfg ≡ ok set
      → Occurs configured (cfg.policy ∷ cfg.policies)
      → (policy : Policy) × (policy_for_version quote set configured.version ≡ ok policy)
        × Describes configured policy
  unfolding moderation_policy_set_from_config policy_for_version
  moderation_policy_set_from_config-finds cfg configured set h here =
      let (first, made, h1) = >>=-eq-ok (new_configured cfg.policy) _ h in
      let (others, listed, set_of) = >>=-eq-ok (new_policies cfg.policies) _ h1 in
      let (policy, there, describes) = each first others made listed here in
      let (version, _, _, _) = describes in
      let trimmed : trim_space policy.version ≡ policy.version =
        rw version (trim_space_idem configured.version) in
      let (found, _) =
        policy_for_version-registered quote first others set policy set_of there trimmed in
      let again : policy_for_version quote set configured.version
          ≡ policy_for_version quote set policy.version =
        rw (trimmed, version) refl in
      (policy, again ∙ found, describes)
    where
      each :
          (first : Policy) (others : List Policy)
          → new_configured cfg.policy ≡ ok first
          → new_policies cfg.policies ≡ ok others
          → Occurs configured (cfg.policy ∷ cfg.policies)
          → (policy : Policy) × Occurs policy (first ∷ others) × Describes configured policy
      each first others made listed (inl e) =
          (first, inl refl, rw e (new_policy-Describes cfg.policy made))
      each first others made listed (inr later) =
          let (policy, there, describes) = new_policies-each cfg.policies configured listed later in
          (policy, inr there, describes)

starts-IsRetry :
    {W : Type 0} (service : WebhookRetryService W) (cfg : WebhookRetryConfig)
    → IsRetry cfg
    → start_webhook_retry_worker (some service) cfg ≡ cfg.enabled
unfolding start_webhook_retry_worker
starts-IsRetry service cfg law = elim (Bool-cases cfg.enabled) [
  | inr off ↦ rw off refl
  | inl on ↦
      let enabled = law.when_enabled on in
      let (n, interval, waits) = enabled.waits in
      let (k, batch, takes) = enabled.takes in
      let (m, attempts, tries) = enabled.tries in
      let waiting : int_leb (nonnegative n) (nonnegative 0) ≡ false = ground arith in
      let taking : int_leb (nonnegative k) (nonnegative 0) ≡ false = ground arith in
      let trying : int_leb (nonnegative m) (nonnegative 1) ≡ false = ground arith in
      rw (on, interval, batch, attempts) (rw (waiting, taking, trying) refl)
]

-- Under a configuration that was loaded, the worker starts exactly if it is switched on.
pub start_webhook_retry_worker-load :
    {W : Type 0} (service : WebhookRetryService W) (env : Environment) (file out : Config)
    → load env file ≡ ok out
    → start_webhook_retry_worker (some service) out.moderation.webhook_retry
      ≡ out.moderation.webhook_retry.enabled
start_webhook_retry_worker-load service env file out h =
    let (_, _, retry, _) = load-ok env file out h in
    starts-IsRetry service out.moderation.webhook_retry retry

module _ {W : Type 0} (sys : System W) (s : Service W) (repository : Repository W)
    (dispatch : Dispatcher W) (stored : s.repository ≡ some repository)
    (sent : s.webhook_dispatcher ≡ some dispatch) (cfg : WebhookRetryConfig) (law : IsRetry cfg)
    (on : cfg.enabled ≡ true) where
  attempts-accepted :
      (m : ℕ)
      → cfg.max_attempts ≡ nonnegative m
      → normalize_webhook_retry_max_attempts cfg.max_attempts ≡ ok m
  unfolding normalize_webhook_retry_max_attempts
  attempts-accepted m e =
      let enabled = law.when_enabled on in
      let (k, attempts, tries) = enabled.tries in
      let same : nonnegative k ≡ nonnegative m = sym attempts ∙ e in
      let equal : k ≡ m = cc in rw e (more m (omega (arith, equal, tries)))
    where
      more : (m : ℕ) → 1 < m → normalize_webhook_retry_max_attempts (nonnegative m) ≡ ok m
      more zero h = absurd (omega arith)
      more (suc zero) h = absurd (omega arith)
      more (suc (suc m)) h = refl

  limit-accepted :
      (n : ℕ)
      → cfg.batch_size ≡ nonnegative n
      → n ≤ 100
      → normalize_webhook_retry_limit cfg.batch_size ≡ ok n
  unfolding normalize_webhook_retry_limit
  limit-accepted n e small =
      let enabled = law.when_enabled on in
      let (k, batch, takes) = enabled.takes in
      let same : nonnegative k ≡ nonnegative n = sym batch ∙ e in
      let equal : k ≡ n = cc in rw e (fits n (omega (arith, equal, takes)) small)
    where
      fits : (n : ℕ) → 0 < n → n ≤ 100 → normalize_webhook_retry_limit (nonnegative n) ≡ ok n
      fits zero h k = absurd (omega arith)
      fits (suc n) h k = let within : ltb 100 (suc n) ≡ false = ground arith in rw within refl

  limit-refused :
      (n : ℕ)
      → cfg.batch_size ≡ nonnegative n
      → 100 < n
      → normalize_webhook_retry_limit cfg.batch_size
        ≡ err (raised (validation_error "webhook retry limit must not exceed 100"))
  unfolding normalize_webhook_retry_limit invalid itoa emit
  limit-refused zero e large = absurd (omega arith)
  limit-refused (suc n) e large =
      let beyond : ltb 100 (suc n) ≡ true = ground arith in rw (e, beyond) refl

  -- A batch of the worker, switched on by a configuration within its bounds, on a service with a
  -- repository and a dispatcher, whose size is at most 100, and whose deliveries can be listed:
  -- it is not refused, and every listed delivery is attempted or skipped, and succeeds or fails
  -- when it is attempted.
  pub run_webhook_retry_batch-IsTally :
      (n m : ℕ) (w : W) (deliveries : List WebhookDelivery)
      → cfg.batch_size ≡ nonnegative n
      → cfg.max_attempts ≡ nonnegative m
      → n ≤ 100
      → (repository.list_retryable_webhook_deliveries n m
          ((sys.now w).0 - webhook_retry_lease)
          ((sys.now w).1)).0
        ≡ ok deliveries
      → (final : WebhookRetryOutput) × ((run_webhook_retry_batch
            (retry_failed_webhook_deliveries sys s)
            cfg
            w).0
          ≡ batch_log (ok final))
        × IsTally (length deliveries) final
  unfolding run_webhook_retry_batch
  run_webhook_retry_batch-IsTally n m w deliveries size attempts small listed =
      let (final, done, tally) =
        retry_failed_webhook_deliveries-IsTally sys s repository dispatch (batch_input cfg) n m
          deliveries w stored sent (limit-accepted n size small) (attempts-accepted m attempts)
          listed in
      (final, ap batch_log done, tally)

  -- With a size of batches above 100, in a configuration within its bounds that switches retries
  -- on, the worker starts, and at every tick the batch is refused with the error of its limit: no
  -- delivery is read or sent, and nothing is done but that the refusal is counted, once, and put
  -- into the log. The service has a repository and a dispatcher.
  pub run_webhook_retry_batch-oversized :
      (n : ℕ) (w : W)
      → cfg.batch_size ≡ nonnegative n
      → 100 < n
      → (start_webhook_retry_worker (some (retry_failed_webhook_deliveries sys s)) cfg ≡ true)
        × (run_webhook_retry_batch (retry_failed_webhook_deliveries sys s) cfg w ≡ (
          batch_failed (raised (validation_error "webhook retry limit must not exceed 100")),
          if s.has_metrics then sys.record_metric (retry_batch "failed") w else w,
        ))
  unfolding run_webhook_retry_batch retry_failed_webhook_deliveries
  run_webhook_retry_batch-oversized n w size large =
      let refused = limit-refused n size large in
      (
        starts-IsRetry (retry_failed_webhook_deliveries sys s) cfg law ∙ on,
        rw (stored, sent, refused) refl,
      )
