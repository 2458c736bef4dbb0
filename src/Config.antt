-- ===== src/Config.antt =====
-- internal/config/config.go: the configuration, and its validation.
--
-- A Go `int` and a duration are `Integer`s. viper, which reads the file and its defaults, is not
-- modelled: what it has unmarshalled is where the code begins.
pub mod Overrides
pub mod Accepted
pub mod Loaded
use hate_sentry.Base.{
  ℕ, String, Bool, true, false, not, ◌&&◌, ◌||◌, ◌==◌, List, ltb, str_eq, if◌then◌else◌,
}
use hate_sentry.Base.Text.{trim_space}
use hate_sentry.Base.Decimal.{Integer, nonnegative, negative}
use hate_sentry.Base.Integers.{int_ltb, int_leb}
use hate_sentry.Float64.{Float64}
use hate_sentry.Errors.{
  Error, Result, ok, err, raised, configuration_error, with_details, reject_if, ◌>>◌, ◌>>=◌,
}

pub record ServerConfig : Type 0 where
  pub host : String
  pub port : Integer
  pub mode : String
  pub read_timeout : Integer
  pub write_timeout : Integer

pub record DatabaseConfig : Type 0 where
  pub host : String
  pub port : Integer
  pub username : String
  pub password : String
  pub database : String
  pub charset : String
  pub parse_time : Bool
  pub loc : String
  pub max_idle_conns : Integer
  pub max_open_conns : Integer
  pub conn_max_lifetime : Integer

pub record RedisConfig : Type 0 where
  pub host : String
  pub port : Integer
  pub password : String
  pub db : Integer
  pub pool_size : Integer
  pub min_idle_conns : Integer

pub record RabbitMqConfig : Type 0 where
  pub host : String
  pub port : Integer
  pub username : String
  pub password : String
  pub vhost : String
  pub queue : String
  pub exchange : String
  pub routing_key : String

pub record AuthConfig : Type 0 where
  pub admin_bootstrap_token : String

pub record JwtConfig : Type 0 where
  pub secret : String
  pub expire_hours : Integer
  pub issuer : String

pub record OpenAiConfig : Type 0 where
  pub api_key : String
  pub base_url : String
  pub model : String
  pub max_tokens : Integer
  pub temperature : Float64

pub record OllamaConfig : Type 0 where
  pub base_url : String
  pub model : String
  pub max_tokens : Integer
  pub temperature : Float64

pub record AiConfig : Type 0 where
  pub provider : String
  pub openai : OpenAiConfig
  pub ollama : OllamaConfig

pub record DetectionConfig : Type 0 where
  pub enable_image_analysis : Bool
  pub enable_text_analysis : Bool
  pub confidence_threshold : Float64
  pub async_threshold : Integer
  pub max_concurrent_req : Integer
  pub result_cache_ttl : Integer

pub record ModerationPolicyConfig : Type 0 where
  pub version : String
  pub review_threshold : Float64
  pub block_threshold : Float64

pub record ModerationRateLimitConfig : Type 0 where
  pub limit : Integer
  pub window : Integer

pub record WebhookRetryConfig : Type 0 where
  pub enabled : Bool
  pub interval : Integer
  pub batch_size : Integer
  pub max_attempts : Integer

pub record ModerationConfig : Type 0 where
  pub policy : ModerationPolicyConfig
  pub policies : List ModerationPolicyConfig
  pub client_rate_limit : ModerationRateLimitConfig
  pub webhook_retry : WebhookRetryConfig

pub record LoggingConfig : Type 0 where
  pub level : String
  pub format : String
  pub output : String

pub record Config : Type 0 where
  pub server : ServerConfig
  pub database : DatabaseConfig
  pub redis : RedisConfig
  pub rabbit_mq : RabbitMqConfig
  pub auth : AuthConfig
  pub jwt : JwtConfig
  pub ai : AiConfig
  pub detection : DetectionConfig
  pub moderation : ModerationConfig
  pub logging : LoggingConfig

-- `errors.ConfigurationError(message).WithDetails(details)`.
abbrev pub misconfigured : String → String → Error
misconfigured message details = raised (with_details (configuration_error message) details)

abbrev pub int_zero : Integer
int_zero = nonnegative 0

abbrev pub one_second : Integer
one_second = nonnegative 1000000000

-- `0 < d && d < time.Second`.
abbrev pub is_too_short : Integer → Bool
is_too_short d = int_ltb int_zero d && int_ltb d one_second

abbrev pub is_zero : Integer → Bool
is_zero (nonnegative n) = n == 0
is_zero (negative n) = false

abbrev limit_error : String → Error
limit_error = misconfigured "invalid moderation client rate limit"

abbrev retry_error : String → Error
retry_error = misconfigured "invalid moderation webhook retry"

-- The tests of `validateConfig` on the rate limit.
unfoldable pub validate_rate_limit : ModerationRateLimitConfig → Result (Unit {0})
validate_rate_limit cfg = do
  reject_if (int_ltb cfg.limit int_zero) (limit_error "limit must be zero or greater")
  reject_if (int_ltb cfg.window int_zero) (limit_error "window must be zero or greater")
  reject_if (is_too_short cfg.window) (limit_error "window must be zero or at least 1s")
  ok tt

-- The tests of `validateConfig` that only hold of a worker that is switched on.
unfoldable pub validate_enabled_retry : WebhookRetryConfig → Result (Unit {0})
validate_enabled_retry cfg = do
  reject_if (cfg.enabled && is_zero cfg.interval)
      (retry_error "interval is required when retry is enabled")
  reject_if (cfg.enabled && is_zero cfg.batch_size)
      (retry_error "batch_size is required when retry is enabled")
  reject_if (cfg.enabled && int_leb cfg.max_attempts (nonnegative 1))
      (retry_error "max_attempts must be greater than 1 when retry is enabled")
  ok tt

-- The tests of `validateConfig` on the retries of webhooks.
unfoldable pub validate_webhook_retry : WebhookRetryConfig → Result (Unit {0})
unfolding validate_enabled_retry
validate_webhook_retry cfg = do
  reject_if (int_ltb cfg.interval int_zero) (retry_error "interval must be zero or greater")
  reject_if (is_too_short cfg.interval) (retry_error "interval must be zero or at least 1s")
  reject_if (int_ltb cfg.batch_size int_zero) (retry_error "batch_size must be zero or greater")
  reject_if (int_ltb cfg.max_attempts int_zero) (retry_error "max_attempts must be zero or greater")
  validate_enabled_retry cfg

-- `AI.Provider`, trimmed.
abbrev pub with_provider : Config → String → Config
with_provider config provider = record config { ai = record config.ai { provider = provider } }

abbrev pub is_provider : String → Bool
is_provider provider = str_eq provider "openai" || str_eq provider "ollama"

-- `validateConfig`, with the configuration that it leaves.
unfoldable pub validate_config : Config → Result Config
unfolding validate_rate_limit validate_webhook_retry
validate_config config =
    let provider = trim_space config.ai.provider in
    do
      reject_if (not (is_provider provider))
          (misconfigured "invalid AI provider" "AI_PROVIDER must be openai or ollama")
      validate_rate_limit config.moderation.client_rate_limit
      validate_webhook_retry config.moderation.webhook_retry
      ok (with_provider config provider)
