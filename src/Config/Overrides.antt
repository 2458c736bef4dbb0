-- ===== src/Config/Overrides.antt =====
-- internal/config/config.go: what the environment overrides.
--
-- A target of an override is a pair of a field's value and the way to set it.
use Prim.Native.String.{◌++◌}
use hate_sentry.Base.{String, Bool, true, false, ◌||◌, Option, none, some, str_eq, if◌then◌else◌}
use hate_sentry.Base.Text.{trim_space}
use hate_sentry.Base.Decimal.{Integer, nonnegative, parse_int}
use hate_sentry.Base.Integers.{int_ltb}
use hate_sentry.Float64.{Float64}
use hate_sentry.Errors.{Result, ok, err, ◌>>=◌}
use hate_sentry.Config.{Config, misconfigured, validate_config}

pub record Environment : Type 0 where
  -- `os.LookupEnv`.
  pub lookup_env : String → Option String
  -- `strconv.ParseFloat(s, 64)` and `time.ParseDuration`, where an error is `none`.
  pub parse_float : String → Option Float64
  pub parse_duration : String → Option Integer

-- `strconv.ParseBool`.
abbrev parse_bool : String → Option Bool
parse_bool s =
    if str_eq s "1"
      || str_eq s "t"
      || str_eq s "T"
      || str_eq s "TRUE"
      || str_eq s "true"
      || str_eq s "True"
    then some true
    else if str_eq s "0"
        || str_eq s "f"
        || str_eq s "F"
        || str_eq s "FALSE"
        || str_eq s "false"
        || str_eq s "False"
    then some false
    else none

abbrev invalid_variable : {A : Type 0} → String → String → Result A
invalid_variable name text = err (misconfigured "invalid environment variable" (name ++ text))

-- A value that was set, and the parser's answer.
abbrev parsed_or : {A : Type 0} → String → String → Option A → Result A
parsed_or name text none = invalid_variable name text
parsed_or name text (some value) = ok value

abbrev or_kept : String → Option String → String
or_kept kept none = kept
or_kept kept (some value) = value

-- The shape of `overrideInt`, `overrideBool`, `overrideFloat` and `overrideDuration`.
abbrev overridden :
    {A : Type 0} → (String → Option A) → String → String → A → Option String → Result A
overridden parse name text kept none = ok kept
overridden parse name text kept (some value) = parsed_or name text (parse value)

-- `overridePort`, of a number.
unfoldable pub checked_port : String → Integer → Result Integer
checked_port name port =
    if int_ltb port (nonnegative 1) || int_ltb (nonnegative 65535) port
    then invalid_variable name " must be between 1 and 65535"
    else ok port

abbrev port_or_kept : String → Integer → Option String → Result Integer
port_or_kept name kept none = ok kept
port_or_kept name kept (some value) = do
  port ← parsed_or name " must be an integer" (parse_int value)
  checked_port name port

abbrev required_or_kept : String → String → Option String → Result String
required_or_kept name kept none = ok kept
required_or_kept name kept (some value) =
    if str_eq (trim_space value) "" then invalid_variable name " must not be empty" else ok value

module _ (env : Environment) where
  unfoldable pub override_string : String → String → String
  override_string name kept = or_kept kept (env.lookup_env name)

  unfoldable pub override_required_string : String → String → Result String
  override_required_string name kept = required_or_kept name kept (env.lookup_env name)

  unfoldable pub override_int : String → Integer → Result Integer
  unfolding parse_int
  override_int name kept =
      overridden parse_int name " must be an integer" kept (env.lookup_env name)

  unfoldable pub override_bool : String → Bool → Result Bool
  override_bool name kept =
      overridden parse_bool name " must be a boolean" kept (env.lookup_env name)

  unfoldable pub override_float : String → Float64 → Result Float64
  override_float name kept =
      overridden env.parse_float name " must be a number" kept (env.lookup_env name)

  unfoldable pub override_duration : String → Integer → Result Integer
  override_duration name kept =
      overridden env.parse_duration name " must be a duration" kept (env.lookup_env name)

  unfoldable pub override_port : String → Integer → Result Integer
  override_port name kept = port_or_kept name kept (env.lookup_env name)

  -- The texts that `applyEnvironmentOverrides` sets without a test, but for the JWT secret.
  unfoldable pub override_texts : Config → Config
  unfolding override_string
  override_texts config = record config {
    server = record config.server {
      host = override_string "SERVER_HOST" config.server.host;
      mode = override_string "SERVER_MODE" config.server.mode;
    };
    database = record config.database {
      host = override_string "DB_HOST" config.database.host;
      username = override_string "DB_USERNAME" config.database.username;
      password = override_string "DB_PASSWORD" config.database.password;
      database = override_string "DB_DATABASE" config.database.database;
    };
    redis = record config.redis {
      host = override_string "REDIS_HOST" config.redis.host;
      password = override_string "REDIS_PASSWORD" config.redis.password;
    };
    rabbit_mq = record config.rabbit_mq {
      host = override_string "RABBITMQ_HOST" config.rabbit_mq.host;
      username = override_string "RABBITMQ_USERNAME" config.rabbit_mq.username;
      password = override_string "RABBITMQ_PASSWORD" config.rabbit_mq.password;
      vhost = override_string "RABBITMQ_VHOST" config.rabbit_mq.vhost;
      queue = override_string "RABBITMQ_QUEUE" config.rabbit_mq.queue;
      exchange = override_string "RABBITMQ_EXCHANGE" config.rabbit_mq.exchange;
      routing_key = override_string "RABBITMQ_ROUTING_KEY" config.rabbit_mq.routing_key;
    };
    auth = record config.auth {
      admin_bootstrap_token =
          override_string "ADMIN_BOOTSTRAP_TOKEN" config.auth.admin_bootstrap_token;
    };
    ai = record config.ai {
      provider = override_string "AI_PROVIDER" config.ai.provider;
      openai = record config.ai.openai {
        api_key = override_string "OPENAI_API_KEY" config.ai.openai.api_key;
        base_url = override_string "OPENAI_BASE_URL" config.ai.openai.base_url;
        model = override_string "OPENAI_MODEL" config.ai.openai.model;
      };
      ollama = record config.ai.ollama {
        base_url = override_string "OLLAMA_BASE_URL" config.ai.ollama.base_url;
        model = override_string "OLLAMA_MODEL" config.ai.ollama.model;
      };
    };
    moderation = record config.moderation {
      policy = record config.moderation.policy {
        version = override_string "MODERATION_POLICY_VERSION" config.moderation.policy.version;
      };
    };
    logging = record config.logging {
      level = override_string "LOG_LEVEL" config.logging.level;
      format = override_string "LOG_FORMAT" config.logging.format;
      output = override_string "LOG_OUTPUT" config.logging.output;
    };
  }

  -- The ports and the number of the Redis database.
  unfoldable pub override_ports : Config → Result Config
  unfolding override_port override_int
  override_ports config = do
    server_port ← override_port "SERVER_PORT" config.server.port
    db_port ← override_port "DB_PORT" config.database.port
    redis_port ← override_port "REDIS_PORT" config.redis.port
    redis_db ← override_int "REDIS_DB" config.redis.db
    rabbit_mq_port ← override_port "RABBITMQ_PORT" config.rabbit_mq.port
    ok (record config {
      server = record config.server { port = server_port };
      database = record config.database { port = db_port };
      redis = record config.redis { port = redis_port; db = redis_db };
      rabbit_mq = record config.rabbit_mq { port = rabbit_mq_port };
    })

  -- The numbers of moderation.
  unfoldable pub override_moderation : Config → Result Config
  unfolding override_float override_int override_duration override_bool
  override_moderation config = do
    review ← override_float "MODERATION_REVIEW_THRESHOLD" config.moderation.policy.review_threshold
    block ← override_float "MODERATION_BLOCK_THRESHOLD" config.moderation.policy.block_threshold
    limit ← override_int "MODERATION_CLIENT_RATE_LIMIT" config.moderation.client_rate_limit.limit
    window ←
        override_duration "MODERATION_CLIENT_RATE_WINDOW" config.moderation.client_rate_limit.window
    enabled ←
        override_bool "MODERATION_WEBHOOK_RETRY_ENABLED" config.moderation.webhook_retry.enabled
    interval ←
        override_duration "MODERATION_WEBHOOK_RETRY_INTERVAL"
          config.moderation.webhook_retry.interval
    batch_size ←
        override_int "MODERATION_WEBHOOK_RETRY_BATCH_SIZE"
          config.moderation.webhook_retry.batch_size
    max_attempts ←
        override_int "MODERATION_WEBHOOK_RETRY_MAX_ATTEMPTS"
          config.moderation.webhook_retry.max_attempts
    ok (record config {
      moderation = record config.moderation {
        policy = record config.moderation.policy {
          review_threshold = review;
          block_threshold = block;
        };
        client_rate_limit = record { limit = limit; window = window };
        webhook_retry = record {
          enabled = enabled;
          interval = interval;
          batch_size = batch_size;
          max_attempts = max_attempts;
        };
      };
    })

  -- `applyEnvironmentOverrides`.
  unfoldable pub apply_environment_overrides : Config → Result Config
  unfolding override_texts override_required_string override_ports override_moderation
  apply_environment_overrides config = do
    secret ← override_required_string "JWT_SECRET" config.jwt.secret
    texts ← ok (override_texts config)
    ports ← override_ports (record texts { jwt = record texts.jwt { secret = secret } })
    override_moderation ports

  -- `Load`, after the file was read.
  unfoldable pub load : Config → Result Config
  load unmarshalled = do
    overridden ← apply_environment_overrides unmarshalled
    validate_config overridden
