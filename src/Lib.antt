-- ===== src/Lib.antt =====
-- HateSentry: moderation with its clients, users, limits, configuration and caches.
--
-- A request to moderate a text goes through `Check`: the input is validated, a result that is
-- stored for the same client and external id is given back, and otherwise a provider's answer is
-- parsed, a policy decides on it, the rows are stored, and a final decision is sent to the
-- client's webhook. Operators finalize the cases that wait for review; failed deliveries are sent
-- again by hand or in batches. Administrators register the clients, whose API keys authenticate
-- them and whose callbacks get the decisions. Users register and log in with tokens. The requests of
-- a client are counted against a limit. The configuration, with what the environment overrides,
-- chooses the policies, the provider and the worker that retries deliveries. Results of detections
-- are kept in caches.
--
--   Base        Go's strings and strconv as far as they are used, tests, association lists
--   Base/Integers  integers over the native numbers
--   Float64     float64 under comparison
--   Errors      internal/errors/app_errors.go: codes, constructors, Wrap, chains of errors
--   Errors/Response  internal/errors/handler.go: the answer to an error
--   Models      internal/models/models.go: the rows of the database
--   Exec        methods that change the world and may fail
--   Database    what the repositories use of GORM, and what is documented of a keyed table
--   Database/Listed  what is documented of a table that is a list of rows
--   Crypto      random numbers, hashes and encodings, as an interface
--   Auth        internal/auth/api_key.go: keys, hashes, the middleware
--   Webhooks    internal/webhooks/webhooks.go: secrets, signatures, addresses, the dispatcher
--   Users       internal/handlers/auth.go, internal/auth/jwt.go, password.go, middleware.go
--     Tokens      jwt.go, password.go, middleware.go
--     Accounts    auth.go: AuthHandler
--     Created, Roles, Registered, Reached, Logins, Access: what holds of accounts and tokens
--   RateLimits  internal/cache/rate_limiter.go
--     Middleware  internal/router/router.go: clientRateLimitMiddleware and its headers
--     Quota, Refused, Retry: which requests of a window are let on
--   Config      internal/config/config.go: the records of the configuration, validateConfig
--     Overrides   applyEnvironmentOverrides, and Load
--     Accepted, Loaded: what holds of a configuration
--   App         internal/app/app.go: policies, and the worker that retries deliveries
--   Ai          internal/ai: the detection service on texts, and its two providers
--   Cache       internal/cache/detection_cache.go, redis.go
--     Levels      multilevel.go: MultiLevelCache
--     Counted, Answers: its statistics, and what Get returns
--   Clients     internal/clients
--     Input       service.go: the validators, and the views of a client
--     Service     service.go: CreateClient to updateClientStatus
--     Repository  repository.go: GormRepository
--     Access      which keys authenticate after a change
--   Moderation  internal/moderation
--     Types       types.go: decisions, statuses, labels
--     Policy      policy.go: Validate, Decide
--     PolicySet   policy.go: NewPolicySet, PolicyForVersion, List
--     Parser      parser.go: ParseProviderSuggestion, normalizeLabels
--     Validate    service.go: limits, validateCheckInput, identifiers
--     Filters     service.go: filters, limits and cursors of lists
--     Service     service.go: interfaces, records, NewService
--     Outputs     service.go: what is shown of stored rows
--     Delivery    service.go: dispatchFinalDecision, deliverFinalDecision, shown errors
--     Retry       service.go: retryWebhookDelivery, RetryFailedWebhookDeliveries
--     Review      service.go: ListReviewCases to finalizeReviewCase
--     Queries     service.go: GetResult, ListHistory, GetStats, deliveries, policies
--     Check       service.go: Check, policyForCheck
--     Repository  repository.go: GormRepository
--   Tests       the theorems at concrete inputs
--
-- A method is a function from a world to a result and a world, so what was done before an error
-- stays done. The world is a parameter, and so is what stands behind it: the clock, uuid.New,
-- encoding/json, base64, the analyzer, the repository (the Go interface, as a record of functions)
-- and the webhook dispatcher. What is asked of them stands among a theorem's hypotheses.
-- A pointer that may be nil is an Option. A map is an association list, and the order in which Go
-- ranges over it is an argument. Ids are 64-bit and are not computed with. Loops are structural
-- recursion, so no fuel is needed.
--
-- The two repositories stand on an interface to GORM. A query is a test on rows, and every call of
-- the database is a step of the world. A transaction runs its steps one after the other, with no
-- other worker in between, as the locks of its rows have it; what another worker does comes before
-- or after. What GORM and MySQL document of a table with a primary key and of transactions is
-- Database/Keyed, a hypothesis of the theorems that need it.
--
-- A handler gives back its answer or its error, and gin, which reads the request and writes the
-- answer, is not part of it. A transaction whose commit fails is rolled back. Where a theorem counts
-- rows, the table is a list of rows that is kept or restored by a transaction (Database/Listed).
-- Redis, bcrypt and the jwt library are parameters: a window of Redis of a second or more counts its
-- calls, and what the jwt library signs it reads back. Names and addresses of users are compared
-- under the collation of the database, which is a parameter; in the other queries equality of
-- texts is meant.
--
-- A call of the cache of two levels is one step where no other call comes in between; Cache/Counted
-- has the steps that others can come between.
--
-- Left out: contexts with their deadlines, log lines, soft deletion,
-- the rounding of times by MySQL. DefaultPolicy is not
-- modelled, since its decimal literals are rounded by the compiler, and NewJWTManager, since it
-- multiplies durations. viper, which reads the file, is not modelled. The older
-- prompts with their detection handlers and batches, the queue, the log, the metrics, the
-- set-up of the database, and the other handlers of HTTP are not part of the library.
pub mod Base
pub mod Errors
pub mod Float64
pub mod Models
pub mod Exec
pub mod Database
pub mod Crypto
pub mod Auth
pub mod Webhooks
pub mod Clients
pub mod Moderation
pub mod Config
pub mod RateLimits
pub mod App
pub mod Ai
pub mod Cache
pub mod Users
pub mod Tests
