-- ===== src/Clients.antt =====
-- internal/clients/service.go: what the administration of external clients takes, returns and needs.
pub mod Input
pub mod Service
pub mod Repository
pub mod Access
use hate_sentry.Base.{ℕ, String, Option, List}
use hate_sentry.Errors.{Error, Result}
use hate_sentry.Exec.{Exec}
use hate_sentry.Models.{Time, ClientApplication}

abbrev pub status_active : String
status_active = "active"

abbrev pub status_inactive : String
status_inactive = "inactive"

abbrev pub max_name_length : ℕ
max_name_length = 100

abbrev pub max_webhook_url_length : ℕ
max_webhook_url_length = 500

abbrev pub max_policy_version_length : ℕ
max_policy_version_length = 50

-- `Repository`: a created client comes back with its id and times.
pub record ClientRepository (W : Type 0) : Type 0 where
  pub create_client : ClientApplication → Exec W ClientApplication
  pub list_clients : Exec W (List ClientApplication)
  pub get_client : ℕ → Exec W ClientApplication
  pub update_client_name : ℕ → String → Exec W ClientApplication
  pub update_client_status : ℕ → String → Exec W ClientApplication
  pub update_client_policy_version : ℕ → String → Exec W ClientApplication
  pub update_client_webhook : ℕ → String → String → Exec W ClientApplication
  pub rotate_client_api_key : ℕ → String → String → Exec W ClientApplication

-- `PolicyVersionValidator`.
abbrev pub PolicyVersionValidator : Type 0
PolicyVersionValidator = String → Result (Unit {0})

pub record ClientService (W : Type 0) : Type 0 where
  pub repository : Option (ClientRepository W)
  pub policy_validator : Option PolicyVersionValidator

pub record CreateInput : Type 0 where
  pub user_id : ℕ
  pub name : String
  pub webhook_url : String
  pub policy_version : String

pub record CreateOutput : Type 0 where
  pub id : ℕ
  pub name : String
  pub status : String
  pub api_key : String
  pub api_key_prefix : String
  pub webhook_secret : String
  pub webhook_url : String
  pub policy_version : String
  pub created_at : Time

pub record ListOutput : Type 0 where
  pub id : ℕ
  pub name : String
  pub status : String
  pub api_key_prefix : String
  pub webhook_url : String
  pub policy_version : String
  pub created_at : Time
  pub updated_at : Time

pub record RotateApiKeyOutput : Type 0 where
  pub id : ℕ
  pub name : String
  pub status : String
  pub api_key : String
  pub api_key_prefix : String
  pub webhook_url : String
  pub policy_version : String
  pub updated_at : Time

pub record UpdateWebhookOutput : Type 0 where
  pub id : ℕ
  pub name : String
  pub status : String
  pub api_key_prefix : String
  pub webhook_secret : String
  pub webhook_url : String
  pub policy_version : String
  pub created_at : Time
  pub updated_at : Time
