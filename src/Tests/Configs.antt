-- ===== src/Tests/Configs.antt =====
-- A configuration, and the worker that it starts.
use hate_sentry.Base.{
  ◌≡◌, ◌↔◌, inl, refl, String, true, false, Option, none, some, [], ◌∷◌, lookup, insert, str_eq,
  arith, if◌then◌else◌,
}
use hate_sentry.Base.Text.{trim_space, trim_left, trim_right, is_space}
use hate_sentry.Base.Decimal.{nonnegative, parse_int, parse_digits, scan_digits}
use hate_sentry.Float64.{float_zero, units}
use hate_sentry.Errors.{ok, raised, validation_error}
use hate_sentry.Moderation.Policy.{Policy, validate, valid_score, new_policy}
use hate_sentry.Moderation.Policy.Thresholds.{score_of}
use hate_sentry.Moderation.PolicySet.{PolicySet, policy_for_version, new_policy_set}
use hate_sentry.Moderation.Retry.{retry_failed_webhook_deliveries}
use hate_sentry.Config.{
  validate_webhook_retry, Config, ModerationPolicyConfig, ModerationConfig, WebhookRetryConfig,
  with_provider, validate_config,
}
use hate_sentry.Config.Overrides.{Environment, load, apply_environment_overrides, checked_port}
use hate_sentry.Config.Accepted.{
  IsProvider, IsRateLimit, IsRetry, validate_config-ok_iff, validate_webhook_retry_iff,
}
use hate_sentry.Config.Loaded.{IsOverridden, load-ok}
use hate_sentry.App.{
  moderation_policy_set_from_config, start_webhook_retry_worker, run_webhook_retry_batch,
  batch_failed,
}
use hate_sentry.Moderation.Service.{retry_batch}
use hate_sentry.App.Worker.{
  Describes, moderation_policy_set_from_config-finds, run_webhook_retry_batch-oversized,
}
use hate_sentry.Tests.Sample.{system, service, repository, dispatch}

abbrev strict : ModerationPolicyConfig
strict = record {
  version = " strict ";
  review_threshold = score_of 5;
  block_threshold = score_of 9;
}

abbrev retry : WebhookRetryConfig
retry = record {
  enabled = true;
  interval = nonnegative 60000000000;
  batch_size = nonnegative 10;
  max_attempts = nonnegative 3;
}

abbrev moderation_config : ModerationConfig
moderation_config = record {
  policy = strict;
  policies = record strict { version = "mild" } ∷ [];
  client_rate_limit = record { limit = nonnegative 60; window = nonnegative 60000000000 };
  webhook_retry = retry;
}

abbrev pub file : Config
file = record {
  server = record {
    host = "0.0.0.0";
    port = nonnegative 8080;
    mode = "debug";
    read_timeout = nonnegative 0;
    write_timeout = nonnegative 0;
  };
  database = record {
    host = "db";
    port = nonnegative 3306;
    username = "";
    password = "";
    database = "";
    charset = "";
    parse_time = true;
    loc = "";
    max_idle_conns = nonnegative 1;
    max_open_conns = nonnegative 1;
    conn_max_lifetime = nonnegative 0;
  };
  redis = record {
    host = "redis";
    port = nonnegative 6379;
    password = "";
    db = nonnegative 0;
    pool_size = nonnegative 1;
    min_idle_conns = nonnegative 1;
  };
  rabbit_mq = record {
    host = "mq";
    port = nonnegative 5672;
    username = "";
    password = "";
    vhost = "/";
    queue = "";
    exchange = "";
    routing_key = "";
  };
  auth = record { admin_bootstrap_token = "" };
  jwt = record { secret = "file"; expire_hours = nonnegative 24; issuer = "hatesentry" };
  ai = record {
    provider = " openai ";
    openai = record {
      api_key = "";
      base_url = "";
      model = "";
      max_tokens = nonnegative 1;
      temperature = float_zero;
    };
    ollama = record {
      base_url = "";
      model = "";
      max_tokens = nonnegative 1;
      temperature = float_zero;
    };
  };
  detection = record {
    enable_image_analysis = false;
    enable_text_analysis = true;
    confidence_threshold = float_zero;
    async_threshold = nonnegative 1;
    max_concurrent_req = nonnegative 1;
    result_cache_ttl = nonnegative 0;
  };
  moderation = moderation_config;
  logging = record { level = "info"; format = "json"; output = "" };
}

abbrev variables : String → Option String
variables name =
    if str_eq name "SERVER_PORT"
    then some "9000"
    else if str_eq name "JWT_SECRET"
    then some "secret"
    else none

abbrev pub environment : Environment
environment = record { lookup_env = variables; parse_float = λ s. none; parse_duration = λ s. none }

abbrev pub loaded : Config
loaded = record file {
  server = record file.server { port = nonnegative 9000 };
  jwt = record file.jwt { secret = "secret" };
  ai = record file.ai { provider = "openai" };
}

pub loads : load environment file ≡ ok loaded
unfolding load validate_config trim_space trim_left trim_right is_space parse_int parse_digits
    scan_digits apply_environment_overrides checked_port
loads = refl

load-ok_example :
    IsProvider "openai"
    × IsRateLimit moderation_config.client_rate_limit
    × IsRetry retry
    × IsOverridden environment file loaded
load-ok_example = load-ok environment file loaded loads

validate_config-ok_iff_example : (validate_config file ≡ ok (with_provider file "openai")) ↔ (
    IsProvider (trim_space " openai ")
    × IsRateLimit moderation_config.client_rate_limit
    × IsRetry retry
    × (with_provider file "openai" ≡ with_provider file (trim_space " openai ")))
validate_config-ok_iff_example = validate_config-ok_iff file (with_provider file "openai")

abbrev strict_policy : Policy
strict_policy = record {
  version = "strict";
  review_threshold = score_of 5;
  block_threshold = score_of 9;
}

abbrev mild_policy : Policy
mild_policy = record strict_policy { version = "mild" }

abbrev policies : PolicySet
policies = record {
  default_policy = strict_policy;
  policies = ("strict", strict_policy) ∷ ("mild", mild_policy) ∷ [];
}

moderation_policy_set_from_config-finds_example :
    (p : Policy) × (policy_for_version (λ s. s) policies " strict " ≡ ok p) × Describes strict p
unfolding moderation_policy_set_from_config new_policy validate valid_score trim_space trim_left
    trim_right is_space new_policy_set units lookup insert
moderation_policy_set_from_config-finds_example =
    moderation_policy_set_from_config-finds (λ s. s) moderation_config strict policies refl
      (inl refl)

retry-IsRetry : IsRetry retry
unfolding validate_webhook_retry
retry-IsRetry = (validate_webhook_retry_iff retry).0 refl

abbrev oversized : WebhookRetryConfig
oversized = record retry { batch_size = nonnegative 101 }

oversized-IsRetry : IsRetry oversized
unfolding validate_webhook_retry
oversized-IsRetry = (validate_webhook_retry_iff oversized).0 refl

run_webhook_retry_batch-oversized_example :
    (start_webhook_retry_worker (some (retry_failed_webhook_deliveries system service)) oversized
      ≡ true)
    × (run_webhook_retry_batch (retry_failed_webhook_deliveries system service) oversized 5 ≡ (
      batch_failed (raised (validation_error "webhook retry limit must not exceed 100")),
      if service.has_metrics then system.record_metric (retry_batch "failed") 5 else 5,
    ))
run_webhook_retry_batch-oversized_example =
    run_webhook_retry_batch-oversized system service repository dispatch refl refl oversized
      oversized-IsRetry refl 101 5 refl (omega arith)
