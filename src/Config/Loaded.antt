-- ===== src/Config/Loaded.antt =====
-- internal/config/config.go: what holds of a configuration that was loaded.
use hate_sentry.Base.{
  ℕ, ◌≤◌, String, ◌||◌, ◌≡◌, ◌≢◌, ◌⊎◌, inl, inr, refl, sym, ap, ◌∙◌, Option, none, some, Bool-cases,
  Option-cases, str_eq, eq_iff, arith,
}
use hate_sentry.Base.Text.{trim_space}
use hate_sentry.Base.Decimal.{Integer, nonnegative, negative, parse_int}
use hate_sentry.Base.Integers.{int_ltb}
use hate_sentry.Errors.{ok, err, ok-injective, >>=-eq-ok}
use hate_sentry.Config.{Config}
use hate_sentry.Config.Overrides.{
  Environment, checked_port, override_port, override_required_string, override_texts,
  override_ports, override_moderation, override_int, override_float, override_bool,
  override_duration, apply_environment_overrides, load,
}
use hate_sentry.Config.Accepted.{IsProvider, IsRateLimit, IsRetry, validate_config-ok_iff}

-- The port of the file, or one from 1 to 65535 where the environment sets it.
abbrev pub PortFrom : Option String → Integer → Integer → Type 0
PortFrom set kept port =
    ((set ≡ none) × (port ≡ kept)) ⊎ ((n : ℕ) × (port ≡ nonnegative n) × (1 ≤ n) × (n ≤ 65535))

-- The secret of the file, or one that the environment sets and is not blank.
abbrev pub SecretFrom : Option String → String → String → Type 0
SecretFrom set kept secret =
    ((set ≡ none) × (secret ≡ kept)) ⊎ ((set ≡ some secret) × (trim_space secret ≢ ""))

-- What the overrides make of the ports and of the secret.
pub record IsOverridden (env : Environment) (file out : Config) : Type 0 where
  pub server_port : PortFrom (env.lookup_env "SERVER_PORT") file.server.port out.server.port
  pub database_port : PortFrom (env.lookup_env "DB_PORT") file.database.port out.database.port
  pub redis_port : PortFrom (env.lookup_env "REDIS_PORT") file.redis.port out.redis.port
  pub rabbit_mq_port :
      PortFrom (env.lookup_env "RABBITMQ_PORT") file.rabbit_mq.port out.rabbit_mq.port
  pub secret : SecretFrom (env.lookup_env "JWT_SECRET") file.jwt.secret out.jwt.secret

checked_port-ok :
    (name : String) (port : Integer) {out : Integer}
    → checked_port name port ≡ ok out
    → (n : ℕ) × (out ≡ nonnegative n) × (1 ≤ n) × (n ≤ 65535)
unfolding checked_port
checked_port-ok name (negative n) h = cc
checked_port-ok name (nonnegative n) {out} h =
    elim (Bool-cases
      (int_ltb (nonnegative n) (nonnegative 1) || int_ltb (nonnegative 65535) (nonnegative n))) [
        | inl wrong ↦ let refused : err _ ≡ ok out = rw wrong at h in cc
        | inr right ↦
            let made : ok (nonnegative n) ≡ ok out = rw right at h in
            (n, sym (ok-injective made), ground arith, ground arith)
      ]

module _ (env : Environment) where
  override_port-ok :
      (name : String) (kept : Integer) {port : Integer}
      → override_port env name kept ≡ ok port
      → PortFrom (env.lookup_env name) kept port
  unfolding override_port
  override_port-ok name kept {port} h = elim (Option-cases (env.lookup_env name)) [
    | inl unset ↦
        let made : ok kept ≡ ok port = rw unset at h in inl (unset, sym (ok-injective made))
    | inr (value, set) ↦ elim (Option-cases (parse_int value)) [
      | inl wrong ↦ let refused : err _ ≡ ok port = rw (set, wrong) at h in cc
      | inr (number, parsed) ↦
          let checked : checked_port name number ≡ ok port = rw (set, parsed) at h in
          inr (checked_port-ok name number checked)
    ]
  ]

  override_required_string-ok :
      (name kept : String) {secret : String}
      → override_required_string env name kept ≡ ok secret
      → SecretFrom (env.lookup_env name) kept secret
  unfolding override_required_string
  override_required_string-ok name kept {secret} h = elim (Option-cases (env.lookup_env name)) [
    | inl unset ↦
        let made : ok kept ≡ ok secret = rw unset at h in inl (unset, sym (ok-injective made))
    | inr (value, set) ↦ elim (Bool-cases (str_eq (trim_space value) "")) [
      | inl blank ↦ let refused : err _ ≡ ok secret = rw (set, blank) at h in cc
      | inr filled ↦
          let made : ok value ≡ ok secret = rw (set, filled) at h in
          let same : value ≡ secret = ok-injective made in
          inr (
            set ∙ ap some same,
            rw (sym same) (λ p. let yes = (eq_iff (trim_space value) "").1 p in cc),
          )
    ]
  ]

  override_ports-ok :
      (config : Config) {out : Config}
      → override_ports env config ≡ ok out
      → PortFrom (env.lookup_env "SERVER_PORT") config.server.port out.server.port
        × PortFrom (env.lookup_env "DB_PORT") config.database.port out.database.port
        × PortFrom (env.lookup_env "REDIS_PORT") config.redis.port out.redis.port
        × PortFrom (env.lookup_env "RABBITMQ_PORT") config.rabbit_mq.port out.rabbit_mq.port
        × (out.jwt ≡ config.jwt)
  unfolding override_ports
  override_ports-ok config {out} h =
      let (server, e1, h1) = >>=-eq-ok (override_port env "SERVER_PORT" config.server.port) _ h in
      let (db, e2, h2) = >>=-eq-ok (override_port env "DB_PORT" config.database.port) _ h1 in
      let (redis, e3, h3) = >>=-eq-ok (override_port env "REDIS_PORT" config.redis.port) _ h2 in
      let (number, e4, h4) = >>=-eq-ok (override_int env "REDIS_DB" config.redis.db) _ h3 in
      let (rabbit, e5, h5) =
        >>=-eq-ok (override_port env "RABBITMQ_PORT" config.rabbit_mq.port) _ h4 in
      let same = ok-injective h5 in
      (
        rw (sym same) (override_port-ok "SERVER_PORT" config.server.port e1),
        rw (sym same) (override_port-ok "DB_PORT" config.database.port e2),
        rw (sym same) (override_port-ok "REDIS_PORT" config.redis.port e3),
        rw (sym same) (override_port-ok "RABBITMQ_PORT" config.rabbit_mq.port e5),
        rw (sym same) refl,
      )

  -- The overrides of moderation leave the rest.
  override_moderation-same :
      (config : Config) {out : Config}
      → override_moderation env config ≡ ok out
      → (m : _) × (out ≡ record config { moderation = m })
  unfolding override_moderation
  override_moderation-same config {out} h =
      let cfg = config.moderation in
      let (review, _, h1) =
        >>=-eq-ok (override_float env "MODERATION_REVIEW_THRESHOLD" cfg.policy.review_threshold) _
          h in
      let (block, _, h2) =
        >>=-eq-ok (override_float env "MODERATION_BLOCK_THRESHOLD" cfg.policy.block_threshold) _
          h1 in
      let (limit, _, h3) =
        >>=-eq-ok (override_int env "MODERATION_CLIENT_RATE_LIMIT" cfg.client_rate_limit.limit) _
          h2 in
      let (window, _, h4) =
        >>=-eq-ok
          (override_duration env "MODERATION_CLIENT_RATE_WINDOW" cfg.client_rate_limit.window) _
          h3 in
      let (enabled, _, h5) =
        >>=-eq-ok (override_bool env "MODERATION_WEBHOOK_RETRY_ENABLED" cfg.webhook_retry.enabled) _
          h4 in
      let (interval, _, h6) =
        >>=-eq-ok
          (override_duration env "MODERATION_WEBHOOK_RETRY_INTERVAL" cfg.webhook_retry.interval) _
          h5 in
      let (batch, _, h7) =
        >>=-eq-ok
          (override_int env "MODERATION_WEBHOOK_RETRY_BATCH_SIZE" cfg.webhook_retry.batch_size) _
          h6 in
      let (attempts, _, h8) =
        >>=-eq-ok
          (override_int env "MODERATION_WEBHOOK_RETRY_MAX_ATTEMPTS" cfg.webhook_retry.max_attempts)
          _ h7 in
      (_, sym (ok-injective h8))

  apply-IsOverridden :
      (file out : Config)
      → apply_environment_overrides env file ≡ ok out
      → IsOverridden env file out
  unfolding apply_environment_overrides override_texts
  apply-IsOverridden file out h =
      let (secret, e1, h1) =
        >>=-eq-ok (override_required_string env "JWT_SECRET" file.jwt.secret) _ h in
      let (ports, e2, h2) = >>=-eq-ok (override_ports env _) _ h1 in
      let (server, database, redis, rabbit, jwt) = override_ports-ok _ e2 in
      let (m, rest) = override_moderation-same ports h2 in
      let from_secret = override_required_string-ok "JWT_SECRET" file.jwt.secret e1 in
      record {
        server_port = rw rest server;
        database_port = rw rest database;
        redis_port = rw rest redis;
        rabbit_mq_port = rw rest rabbit;
        secret = rw (rest, jwt) from_secret;
      }

  -- A configuration that is loaded has one of the two providers, with no blanks around it, a rate
  -- limit and retries within their bounds, ports that are those of the file or lie from 1 to 65535,
  -- and the secret of the file or one that is not blank.
  pub load-ok :
      (file out : Config)
      → load env file ≡ ok out
      → IsProvider out.ai.provider
        × IsRateLimit out.moderation.client_rate_limit
        × IsRetry out.moderation.webhook_retry
        × IsOverridden env file out
  unfolding load
  load-ok file out h =
      let (overridden, applied, accepted) = >>=-eq-ok (apply_environment_overrides env file) _ h in
      let (provider, limit, retry, same) = (validate_config-ok_iff overridden out).0 accepted in
      let made = apply-IsOverridden file overridden applied in
      (
        rw same provider,
        rw same limit,
        rw same retry,
        rw same (record {
          server_port = made.server_port;
          database_port = made.database_port;
          redis_port = made.redis_port;
          rabbit_mq_port = made.rabbit_mq_port;
          secret = made.secret;
        }),
      )
