-- ===== src/Models.antt =====
-- internal/models/models.go: the rows of users and their locks, of moderation, review and
-- webhook delivery.
--
-- Times are nanoseconds since Go's zero time, which is 0. The embedded associations `User` and
-- `Client` are left out: no code of the program reads them. `DeletedAt` is left out too, since the
-- program never deletes one of these rows.
use hate_sentry.Base.{ℕ, String, Bool, Option, ◌==◌}
use hate_sentry.Float64.{Float64}

abbrev pub Time : Type 0
Time = ℕ

-- `t.IsZero()`.
abbrev pub is_zero_time : Time → Bool
is_zero_time t = t == 0

pub record User : Type 0 where
  pub id : ℕ
  pub created_at : Time
  pub updated_at : Time
  pub username : String
  pub email : String
  pub password : String
  pub role : String
  pub status : String
  pub api_key : String

pub record SystemLock : Type 0 where
  pub name : String
  pub created_at : Time
  pub updated_at : Time

pub record ClientApplication : Type 0 where
  pub id : ℕ
  pub created_at : Time
  pub updated_at : Time
  pub user_id : ℕ
  pub name : String
  pub api_key_hash : String
  pub api_key_prefix : String
  pub status : String
  pub webhook_url : String
  pub webhook_secret : String
  pub policy_version : String

pub record DetectionResult : Type 0 where
  pub id : ℕ
  pub created_at : Time
  pub updated_at : Time
  pub request_id : String
  pub is_hate_speech : Bool
  pub confidence : Float64
  pub categories : String
  pub explanation : String
  pub model : String
  pub processing_time : ℕ
  pub prompt_used : String
  pub raw_response : String

pub record ModerationRequest : Type 0 where
  pub id : ℕ
  pub created_at : Time
  pub updated_at : Time
  pub request_id : String
  pub user_id : ℕ
  pub client_id : Option ℕ
  pub idempotency_key : Option String
  pub content : String
  pub source : String
  pub external_id : String
  pub actor_id : String
  pub status : String

pub record ModerationResult : Type 0 where
  pub id : ℕ
  pub created_at : Time
  pub updated_at : Time
  pub request_id : String
  pub user_id : ℕ
  pub client_id : Option ℕ
  pub provider : String
  pub model : String
  pub raw_output : String
  pub risk_score : Float64
  pub labels : String
  pub decision : String
  pub reason : String
  pub policy_version : String

pub record ReviewCase : Type 0 where
  pub id : ℕ
  pub created_at : Time
  pub updated_at : Time
  pub request_id : String
  pub user_id : ℕ
  pub client_id : Option ℕ
  pub status : String
  pub reviewer_id : Option ℕ
  pub final_decision : String
  pub review_notes : String
  pub reviewed_at : Option Time

pub record WebhookDelivery : Type 0 where
  pub id : ℕ
  pub created_at : Time
  pub updated_at : Time
  pub delivery_id : String
  pub request_id : String
  pub client_id : ℕ
  pub event : String
  pub status : String
  pub attempt_count : ℕ
  pub last_attempt_at : Time
  pub http_status : Option ℕ
  pub error_message : String
  pub payload : String
