-- ===== src/Clients/Input.antt =====
-- internal/clients/service.go: the checks of what an administrator sends, and the two views of a
-- client.
use hate_sentry.Base.{ℕ, String, ◌==◌, Option, none, some, contains, str_eq, [], ◌∷◌, if◌then◌else◌}
use hate_sentry.Base.Text.{trim_space}
use hate_sentry.Errors.{
  error_text, Result, ok, err, fail, with_details, validation_error, reject_if, ◌>>=◌, ◌>>◌,
}
use hate_sentry.Models.{ClientApplication}
use hate_sentry.Webhooks.Address.{Addresses, validate_url}
use hate_sentry.Moderation.Validate.{invalid, bounded, parse_id, unauthenticated}
use hate_sentry.Clients.{
  status_active, status_inactive, max_name_length, max_webhook_url_length,
  max_policy_version_length, PolicyVersionValidator, CreateInput, ListOutput, UpdateWebhookOutput,
}

-- `parseClientID`.
abbrev pub parse_client_id : String → Result ℕ
parse_client_id = parse_id "client"

-- `validateClientNameInput`.
unfoldable pub validate_client_name_input : String → Result String
unfolding trim_space bounded
validate_client_name_input name =
    let trimmed = trim_space name in
    do
      reject_if (str_eq trimmed "") (invalid "name is required")
      bounded "name" max_name_length trimmed
      ok trimmed

-- `validatePolicyVersionInput`.
unfoldable pub validate_policy_version_input : String → Result String
unfolding trim_space bounded
validate_policy_version_input policy_version =
    let trimmed = trim_space policy_version in
    do bounded "policy_version" max_policy_version_length trimmed; ok trimmed

-- `validateClientStatus`.
unfoldable pub validate_client_status : String → Result (Unit {0})
validate_client_status status =
    if contains status (status_active ∷ status_inactive ∷ [])
    then ok tt
    else err (invalid "client status must be active or inactive")

-- The validation of an assigned policy version, if there is a validator.
abbrev invalid_policy : Result (Unit {0}) → Result (Unit {0})
invalid_policy (ok done) = ok tt
invalid_policy (err e) =
    fail (with_details (validation_error "invalid policy_version") (error_text e))

unfoldable pub assigned_policy : Option PolicyVersionValidator → String → Result (Unit {0})
assigned_policy none version = ok tt
assigned_policy (some validate) version = invalid_policy (validate version)

-- `clientListOutput`.
unfoldable pub client_list_output : ClientApplication → ListOutput
client_list_output client = record {
  id = client.id;
  name = client.name;
  status = client.status;
  api_key_prefix = client.api_key_prefix;
  webhook_url = client.webhook_url;
  policy_version = client.policy_version;
  created_at = client.created_at;
  updated_at = client.updated_at;
}

-- `clientWebhookOutput`.
unfoldable pub client_webhook_output : ClientApplication → String → UpdateWebhookOutput
client_webhook_output client webhook_secret = record {
  id = client.id;
  name = client.name;
  status = client.status;
  api_key_prefix = client.api_key_prefix;
  webhook_secret = webhook_secret;
  webhook_url = client.webhook_url;
  policy_version = client.policy_version;
  created_at = client.created_at;
  updated_at = client.updated_at;
}

module _ {Ip : Type 0} (net : Addresses Ip) where
  abbrev pub valid_callback : String → Result (Unit {0})
  valid_callback url = if str_eq url "" then ok tt else validate_url net url

  -- `validateWebhookURLInput`.
  unfoldable pub validate_webhook_url_input : String → Result String
  unfolding trim_space bounded
  validate_webhook_url_input webhook_url =
      let trimmed = trim_space webhook_url in
      do bounded "webhook_url" max_webhook_url_length trimmed; valid_callback trimmed; ok trimmed

  -- `validateCreateInput`.
  unfoldable pub validate_create_input : CreateInput → Result CreateInput
  unfolding trim_space bounded validate_client_name_input
  validate_create_input input =
      let webhook_url = trim_space input.webhook_url in
      let policy_version = trim_space input.policy_version in
      do
        reject_if (input.user_id == 0) unauthenticated
        name ← validate_client_name_input input.name
        bounded "webhook_url" max_webhook_url_length webhook_url
        valid_callback webhook_url
        bounded "policy_version" max_policy_version_length policy_version
        ok (record input {
          name = name;
          webhook_url = webhook_url;
          policy_version = policy_version;
        })
