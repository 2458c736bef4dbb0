-- ===== src/Config/Accepted.antt =====
-- internal/config/config.go: which configurations are accepted.
use hate_sentry.Base.{
  ℕ, zero, suc, ◌≤◌, ◌<◌, String, true, false, not, ◌&&◌, ◌≡◌, ◌↔◌, ◌⊎◌, inl, inr, refl, sym,
  Bool-cases, str_eq, ◌==◌, leb, eq_iff, arith,
}
use hate_sentry.Base.Text.{trim_space}
use hate_sentry.Base.Decimal.{Integer, nonnegative, negative}
use hate_sentry.Base.Integers.{int_ltb, int_leb}
use hate_sentry.Errors.{ok, reject_if-ok, ok-injective, >>=-eq-ok}
use hate_sentry.Config.{
  Config, ModerationRateLimitConfig, WebhookRetryConfig, int_zero, is_too_short, is_zero,
  is_provider, with_provider, validate_rate_limit, validate_enabled_retry, validate_webhook_retry,
  validate_config,
}

abbrev pub IsNonnegative : Integer → Type 0
IsNonnegative d = (n : ℕ) × (d ≡ nonnegative n)

-- Zero, or a second and more.
abbrev pub IsPause : Integer → Type 0
IsPause d = (d ≡ nonnegative 0) ⊎ ((n : ℕ) × (d ≡ nonnegative n) × (1000000000 ≤ n))

pub record IsRateLimit (cfg : ModerationRateLimitConfig) : Type 0 where
  pub some_limit : IsNonnegative cfg.limit
  pub some_window : IsPause cfg.window

-- A worker that is switched on.
pub record IsEnabledRetry (cfg : WebhookRetryConfig) : Type 0 where
  pub waits : (n : ℕ) × (cfg.interval ≡ nonnegative n) × (0 < n)
  pub takes : (n : ℕ) × (cfg.batch_size ≡ nonnegative n) × (0 < n)
  pub tries : (n : ℕ) × (cfg.max_attempts ≡ nonnegative n) × (1 < n)

pub record IsRetry (cfg : WebhookRetryConfig) : Type 0 where
  pub some_interval : IsPause cfg.interval
  pub some_batch : IsNonnegative cfg.batch_size
  pub some_attempts : IsNonnegative cfg.max_attempts
  pub when_enabled : cfg.enabled ≡ true → IsEnabledRetry cfg

abbrev pub IsProvider : String → Type 0
IsProvider provider = (provider ≡ "openai") ⊎ (provider ≡ "ollama")

int_ltb_zero_lem : (d : Integer) → (int_ltb d int_zero ≡ false) ↔ IsNonnegative d
int_ltb_zero_lem (nonnegative n) = ((λ h. (n, refl)), (λ h. ground arith))
int_ltb_zero_lem (negative n) = ((λ h. cc), (λ h. let (m, e) = h in cc))

is_too_short_lem : (d : Integer) → int_ltb d int_zero ≡ false → is_too_short d ≡ false → IsPause d
is_too_short_lem (nonnegative zero) h k = inl refl
is_too_short_lem (nonnegative (suc n)) h k = inr (suc n, refl, ground arith)
is_too_short_lem (negative n) h k = cc

IsPause-tests : (d : Integer) → IsPause d → (int_ltb d int_zero ≡ false) × (is_too_short d ≡ false)
IsPause-tests d (inl e) = rw e (refl, refl)
IsPause-tests d (inr (n, e, h)) = rw e (ground arith, ground arith)

positive :
    (d : Integer) → IsNonnegative d → is_zero d ≡ false → (n : ℕ) × (d ≡ nonnegative n) × (0 < n)
positive (nonnegative zero) h k = let wrong : true ≡ false = k in cc
positive (nonnegative (suc n)) h k = (suc n, refl, omega arith)
positive (negative n) (m, e) k = cc

above_one :
    (d : Integer)
    → IsNonnegative d
    → int_leb d (nonnegative 1) ≡ false
    → (n : ℕ) × (d ≡ nonnegative n) × (1 < n)
above_one (nonnegative n) h k = (n, refl, ground arith)
above_one (negative n) (m, e) k = cc

pause-IsNonnegative : (d : Integer) → IsPause d → IsNonnegative d
pause-IsNonnegative d (inl e) = (0, e)
pause-IsNonnegative d (inr (n, e, h)) = (n, e)

pub validate_rate_limit_iff :
    (cfg : ModerationRateLimitConfig) → (validate_rate_limit cfg ≡ ok tt) ↔ IsRateLimit cfg
unfolding validate_rate_limit
validate_rate_limit_iff cfg = (
  (λ h.
      let (limit, h1) = reject_if-ok _ _ _ h in
      let (window, h2) = reject_if-ok _ _ _ h1 in
      let (long, _) = reject_if-ok _ _ _ h2 in
      record {
        some_limit = (int_ltb_zero_lem cfg.limit).0 limit;
        some_window = is_too_short_lem cfg.window window long;
      }),
  (λ h.
      let limit = (int_ltb_zero_lem cfg.limit).1 h.some_limit in
      let (window, long) = IsPause-tests cfg.window h.some_window in rw (limit, window, long) refl),
)

validate_enabled-IsEnabled :
    (cfg : WebhookRetryConfig)
    → IsNonnegative cfg.interval
    → IsNonnegative cfg.batch_size
    → IsNonnegative cfg.max_attempts
    → cfg.enabled ≡ true
    → validate_enabled_retry cfg ≡ ok tt
    → IsEnabledRetry cfg
unfolding validate_enabled_retry
validate_enabled-IsEnabled cfg interval batch attempts on h =
    let (some_interval, h1) = reject_if-ok (cfg.enabled && is_zero cfg.interval) _ _ h in
    let (some_batch, h2) = reject_if-ok (cfg.enabled && is_zero cfg.batch_size) _ _ h1 in
    let (some_attempts, _) =
      reject_if-ok (cfg.enabled && int_leb cfg.max_attempts (nonnegative 1)) _ (ok tt) h2 in
    record {
      waits = positive cfg.interval interval (rw on at some_interval);
      takes = positive cfg.batch_size batch (rw on at some_batch);
      tries = above_one cfg.max_attempts attempts (rw on at some_attempts);
    }

validate_enabled-when :
    (cfg : WebhookRetryConfig)
    → (cfg.enabled ≡ true → IsEnabledRetry cfg)
    → validate_enabled_retry cfg ≡ ok tt
unfolding validate_enabled_retry
validate_enabled-when cfg h = elim (Bool-cases cfg.enabled) [
  | inr off ↦ rw off refl
  | inl on ↦
      let enabled = h on in
      let (n, interval, waits) = enabled.waits in
      let (k, batch, takes) = enabled.takes in
      let (m, attempts, tries) = enabled.tries in
      let waiting : (n == 0) ≡ false = ground arith in
      let taking : (k == 0) ≡ false = ground arith in
      let trying : leb m 1 ≡ false = ground arith in
      rw (on, interval, batch, attempts) (rw (waiting, taking, trying) refl)
]

pub validate_webhook_retry_iff :
    (cfg : WebhookRetryConfig) → (validate_webhook_retry cfg ≡ ok tt) ↔ IsRetry cfg
unfolding validate_webhook_retry
validate_webhook_retry_iff cfg = (
  (λ h.
      let (interval, h1) = reject_if-ok _ _ _ h in
      let (long, h2) = reject_if-ok _ _ _ h1 in
      let (batch, h3) = reject_if-ok _ _ _ h2 in
      let (attempts, h4) = reject_if-ok _ _ _ h3 in
      let some_interval = is_too_short_lem cfg.interval interval long in
      let some_batch = (int_ltb_zero_lem cfg.batch_size).0 batch in
      let some_attempts = (int_ltb_zero_lem cfg.max_attempts).0 attempts in
      record {
        some_interval = some_interval;
        some_batch = some_batch;
        some_attempts = some_attempts;
        when_enabled = λ on.
            validate_enabled-IsEnabled cfg (pause-IsNonnegative cfg.interval some_interval)
              some_batch some_attempts on h4;
      }),
  (λ h.
      let (interval, long) = IsPause-tests cfg.interval h.some_interval in
      let batch = (int_ltb_zero_lem cfg.batch_size).1 h.some_batch in
      let attempts = (int_ltb_zero_lem cfg.max_attempts).1 h.some_attempts in
      rw (interval, long, batch, attempts) (validate_enabled-when cfg h.when_enabled)),
)

is_provider_iff : (provider : String) → (is_provider provider ≡ true) ↔ IsProvider provider
is_provider_iff provider = (
  (λ h. elim (Bool-cases (str_eq provider "openai")) [
    | inl openai ↦ inl ((eq_iff provider "openai").0 openai)
    | inr other ↦
        let ollama : str_eq provider "ollama" ≡ true = rw other at h in
        inr ((eq_iff provider "ollama").0 ollama)
  ]),
  (λ h. elim h [ inl e ↦ rw e refl | inr e ↦ rw e refl ]),
)

-- A configuration is accepted exactly if its provider is one of the two, up to blanks around it,
-- and its rate limit and its retries are within their bounds; only the blanks are taken away.
pub validate_config-ok_iff :
    (config out : Config)
    → (validate_config config ≡ ok out) ↔ (
        IsProvider (trim_space config.ai.provider)
        × IsRateLimit config.moderation.client_rate_limit
        × IsRetry config.moderation.webhook_retry
        × (out ≡ with_provider config (trim_space config.ai.provider)))
unfolding validate_config
validate_config-ok_iff config out = (
  (λ h.
      let (provider, h1) = reject_if-ok (not (is_provider (trim_space config.ai.provider))) _ _ h in
      let (_, limit, h2) =
        >>=-eq-ok (validate_rate_limit config.moderation.client_rate_limit) _ h1 in
      let (_, retry, h3) =
        >>=-eq-ok (validate_webhook_retry config.moderation.webhook_retry) _ h2 in
      let known : is_provider (trim_space config.ai.provider) ≡ true = ground arith in
      (
        (is_provider_iff (trim_space config.ai.provider)).0 known,
        (validate_rate_limit_iff config.moderation.client_rate_limit).0 limit,
        (validate_webhook_retry_iff config.moderation.webhook_retry).0 retry,
        sym (ok-injective h3),
      )),
  (λ (provider, limit, retry, same).
      let known = (is_provider_iff (trim_space config.ai.provider)).1 provider in
      let limits = (validate_rate_limit_iff config.moderation.client_rate_limit).1 limit in
      let retries = (validate_webhook_retry_iff config.moderation.webhook_retry).1 retry in
      rw (known, limits, retries, same) refl),
)
