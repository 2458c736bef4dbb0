-- ===== src/Moderation/Retry/Batch.antt =====
-- internal/moderation/service.go: the counts of a batch of webhook retries.
use hate_sentry.Base.{
  ℕ, ◌+◌, ◌-◌, some, List, [], ◌∷◌, Bool-cases, str_eq, length, ◌≡◌, refl, inl, inr, arith,
}
use hate_sentry.Errors.{Result, ok, err}
use hate_sentry.Models.{WebhookDelivery}
use hate_sentry.Moderation.Types.{webhook_delivery_succeeded}
use hate_sentry.Moderation.Service.{System, Service, Repository, Dispatcher}
use hate_sentry.Moderation.Filters.{
  normalize_webhook_retry_limit, normalize_webhook_retry_max_attempts,
}
use hate_sentry.Moderation.Delivery.{is_webhook_retry_conflict}
use hate_sentry.Moderation.Retry.{
  webhook_retry_lease, WebhookRetryOutput, WebhookRetryInput, count_retry, retry_webhook_delivery,
  retry_loop, retry_failed_webhook_deliveries,
}

-- The counts of a batch in which `n` deliveries were looked at.
pub record IsTally (n : ℕ) (out : WebhookRetryOutput) : Type 0 where
  pub tried : out.attempted ≡ out.succeeded + out.failed
  pub seen : out.attempted + out.skipped ≡ n

count_retry-IsTally :
    (n : ℕ) (out : WebhookRetryOutput) (r : Result WebhookDelivery)
    → IsTally n out
    → IsTally (n + 1) (count_retry out r)
unfolding count_retry
count_retry-IsTally n out (err e) h = elim (Bool-cases (is_webhook_retry_conflict e)) [
  | inl c ↦ rw c (record { tried = h.tried; seen = omega arith })
  | inr c ↦ rw c (record { tried = omega arith; seen = omega arith })
]
count_retry-IsTally n out (ok d) h =
    elim (Bool-cases (str_eq d.status webhook_delivery_succeeded)) [
      | inl c ↦ rw c (record { tried = omega arith; seen = omega arith })
      | inr c ↦ rw c (record { tried = omega arith; seen = omega arith })
    ]

module _ {W : Type 0} (sys : System W) (s : Service W) (repository : Repository W)
    (dispatch : Dispatcher W) (max_attempts : ℕ) where
  -- The loop over the listed deliveries never fails, whatever the single retries do: it ends with
  -- counts in which every attempted delivery has succeeded or failed, and attempted and skipped
  -- ones are as many as were counted before and listed.
  pub retry_loop-IsTally :
      (deliveries : List WebhookDelivery) (n : ℕ) (out : WebhookRetryOutput) (w : W)
      → IsTally n out
      → (final : WebhookRetryOutput) × ((retry_loop sys s repository dispatch max_attempts
            deliveries out w).0
          ≡ ok final)
        × IsTally (n + length deliveries) final
  unfolding retry_loop
  retry_loop-IsTally [] n out w h = (out, refl, record { tried = h.tried; seen = omega arith })
  retry_loop-IsTally (d ∷ rest) n out w h =
      let (r, w') =
        retry_webhook_delivery sys s repository dispatch d.id max_attempts "automatic_retry" w in
      let (final, e, tally) =
        retry_loop-IsTally rest (n + 1) (count_retry out r) w' (count_retry-IsTally n out r h) in
      (final, e, record { tried = tally.tried; seen = omega arith })

-- A batch on a configured service whose limits are accepted and whose deliveries can be listed
-- succeeds, whatever the single retries do. In its counts, every attempted delivery has succeeded
-- or failed, and attempted and skipped ones are together the listed ones.
pub retry_failed_webhook_deliveries-IsTally :
    {W : Type 0} (sys : System W) (s : Service W) (repository : Repository W)
    (dispatch : Dispatcher W) (input : WebhookRetryInput) (limit max_attempts : ℕ)
    (deliveries : List WebhookDelivery) (w : W)
    → s.repository ≡ some repository
    → s.webhook_dispatcher ≡ some dispatch
    → normalize_webhook_retry_limit input.limit ≡ ok limit
    → normalize_webhook_retry_max_attempts input.max_attempts ≡ ok max_attempts
    → (repository.list_retryable_webhook_deliveries limit max_attempts
        ((sys.now w).0 - webhook_retry_lease)
        ((sys.now w).1)).0
      ≡ ok deliveries
    → (final : WebhookRetryOutput) × ((retry_failed_webhook_deliveries sys s input w).0 ≡ ok final)
      × IsTally (length deliveries) final
unfolding retry_failed_webhook_deliveries
retry_failed_webhook_deliveries-IsTally sys s repository dispatch input limit max_attempts
      deliveries w r d l m e =
    let configured = record s {
      repository = some repository;
      webhook_dispatcher = some dispatch;
    } in
    let (final, q, tally) =
      retry_loop-IsTally sys configured repository dispatch max_attempts deliveries 0
        (record { attempted = 0; succeeded = 0; failed = 0; skipped = 0 })
        ((repository.list_retryable_webhook_deliveries limit max_attempts
          ((sys.now w).0 - webhook_retry_lease) ((sys.now w).1)).1)
        (record { tried = refl; seen = refl }) in
    (final, rw (r, d, l, m, e, q) refl, record { tried = tally.tried; seen = omega arith })
