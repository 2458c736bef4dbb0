-- ===== src/Tests/Sample.antt =====
-- A small world for the tests: a clock, and a repository with one stored result and one delivery.
use hate_sentry.Base.{ℕ, ◌+◌, String, none, some, [], ◌∷◌, true}
use hate_sentry.Float64.{float_zero}
use hate_sentry.Errors.{ok, err, plain_error, raised, conflict_error}
use hate_sentry.Exec.{Exec}
use hate_sentry.Models.{
  Time, User, ModerationRequest, ModerationResult, ReviewCase, WebhookDelivery,
}
use hate_sentry.Moderation.Types.{ProviderSuggestion, ProviderInfo}
use hate_sentry.Moderation.Policy.{Policy}
use hate_sentry.Moderation.Policy.Thresholds.{score_of}
use hate_sentry.Moderation.Service.{System, Service, Repository, Analyzer, Dispatcher, StoredResult}

abbrev missing : {A : Type 0} → Exec ℕ A
missing w = (err (plain_error "not there"), w)

-- Every reading of the clock moves it.
abbrev pub system : System ℕ
system = record {
  now = λ w. (w, w + 1);
  new_uuid = λ w. ("uuid", w);
  record_metric = λ m w. w;
  marshal_labels = λ labels. ok "[]";
  unmarshal_labels = λ text. ok [];
  marshal_payload = λ payload. ok "{}";
  unmarshal_payload = λ text. err (plain_error "no payload");
  divide = λ a b. float_zero;
  quote = λ s. s;
}

abbrev pub stored_user : User
stored_user = record {
  id = 1;
  created_at = 2;
  updated_at = 2;
  username = "ada";
  email = "ada@example.org";
  password = "hash:secret pass";
  role = "admin";
  status = "active";
  api_key = "hs_1";
}

abbrev pub stored_request : ModerationRequest
stored_request = record {
  id = 1;
  created_at = 2;
  updated_at = 2;
  request_id = "old";
  user_id = 1;
  client_id = some 7;
  idempotency_key = some "7:post-1";
  content = "hello";
  source = "api";
  external_id = "post-1";
  actor_id = "";
  status = "completed";
}

abbrev pub stored_row : ModerationResult
stored_row = record {
  id = 1;
  created_at = 2;
  updated_at = 2;
  request_id = "old";
  user_id = 1;
  client_id = some 7;
  provider = "p";
  model = "m";
  raw_output = "{}";
  risk_score = score_of 7;
  labels = "[]";
  decision = "allow";
  reason = "fine";
  policy_version = "strict";
}

abbrev pub stored : StoredResult
stored = record { request = stored_request; result = stored_row; review_case = none }

abbrev pub approved_case : ℕ → ℕ → String → String → String → Time → ReviewCase
approved_case id reviewer_id status final_decision notes at = record {
  id = id;
  created_at = 2;
  updated_at = at;
  request_id = "old";
  user_id = 1;
  client_id = some 7;
  status = status;
  reviewer_id = some reviewer_id;
  final_decision = final_decision;
  review_notes = notes;
  reviewed_at = some at;
}

abbrev pub failed_delivery : WebhookDelivery
failed_delivery = record {
  id = 4;
  created_at = 2;
  updated_at = 2;
  delivery_id = "d";
  request_id = "old";
  client_id = 7;
  event = "moderation.final_decision";
  status = "failed";
  attempt_count = 1;
  last_attempt_at = 2;
  http_status = none;
  error_message = "webhook delivery failed";
  payload = "{}";
}

-- Another process has claimed the delivery.
abbrev pub repository : Repository ℕ
repository = record {
  save_check = λ rows w. (ok rows, w + 1);
  get_result = λ user_id request_id. missing;
  get_result_for_client = λ user_id client_id request_id. missing;
  find_result_by_client_external_id = λ client_id external_id w. (ok (some stored), w);
  list_history = λ filter. missing;
  get_client = λ id. missing;
  save_webhook_delivery = λ delivery. missing;
  get_webhook_delivery = λ id. missing;
  list_webhook_deliveries = λ filter. missing;
  list_retryable_webhook_deliveries = λ limit max_attempts before w. (ok (failed_delivery ∷ []), w);
  claim_failed_webhook_delivery = λ id max_attempts at w.
      (err (raised (conflict_error "webhook delivery is already retrying")), w);
  update_webhook_delivery_attempt = λ id status http_status message at. missing;
  get_stats = missing;
  list_review_cases = λ filter. missing;
  get_review_case = λ id. missing;
  finalize_review_case = λ id reviewer_id status final_decision notes at w. (
    ok (record {
      review_case = approved_case id reviewer_id status final_decision notes at;
      request = stored_request;
      result = stored_row;
    }),
    w,
  );
}

abbrev pub provider_info : ProviderInfo
provider_info = record { provider = "p"; model = "m" }

abbrev pub suggestion : ProviderSuggestion
suggestion = record {
  risk_score = score_of 5;
  labels = "hate" ∷ [];
  reason = "a slur";
  raw_output = "{}";
}

abbrev pub analyze : Analyzer ℕ
analyze content w = (ok (suggestion, provider_info), w)

abbrev pub dispatch : Dispatcher ℕ
dispatch client payload w = (none, w)

abbrev pub policy : Policy
policy = record { version = "strict"; review_threshold = score_of 5; block_threshold = score_of 9 }

abbrev pub service : Service ℕ
service = record {
  analyzer = some analyze;
  repository = some repository;
  policies = record { default_policy = policy; policies = ("strict", policy) ∷ [] };
  webhook_dispatcher = some dispatch;
  has_metrics = true;
}
