-- ===== src/Clients/Service.antt =====
-- internal/clients/service.go: clients are created, listed, renamed, switched on and off, and get
-- new keys, policies and callbacks.
pub mod Created
use hate_sentry.Base.{
  ℕ, String, Bool, true, false, ◌==◌, Option, none, some, List, map, str_eq, if◌then◌else◌,
}
use hate_sentry.Errors.{Error, Result, ok, err, configuration_error, reject_if}
use hate_sentry.Exec.{Exec, pure, lift, require, continue, ◌>>=◌, ◌>>◌}
use hate_sentry.Models.{ClientApplication}
use hate_sentry.Crypto.{Crypto}
use hate_sentry.Auth.{generate_api_key, hash_api_key, api_key_prefix}
use hate_sentry.Webhooks.{generate_secret}
use hate_sentry.Webhooks.Address.{Addresses}
use hate_sentry.Moderation.Validate.{parse_id, unauthenticated}
use hate_sentry.Clients.{
  status_active, status_inactive, ClientRepository, ClientService, CreateInput, CreateOutput,
  ListOutput, RotateApiKeyOutput, UpdateWebhookOutput,
}
use hate_sentry.Clients.Input.{
  parse_client_id, validate_client_name_input, validate_policy_version_input,
  validate_webhook_url_input, validate_create_input, validate_client_status, assigned_policy,
  client_list_output, client_webhook_output,
}

abbrev pub created_output : ClientApplication → String → String → CreateOutput
created_output client api_key webhook_secret = record {
  id = client.id;
  name = client.name;
  status = client.status;
  api_key = api_key;
  api_key_prefix = client.api_key_prefix;
  webhook_secret = webhook_secret;
  webhook_url = client.webhook_url;
  policy_version = client.policy_version;
  created_at = client.created_at;
}

abbrev pub rotated_output : ClientApplication → String → String → RotateApiKeyOutput
rotated_output client api_key prefix = record {
  id = client.id;
  name = client.name;
  status = client.status;
  api_key = api_key;
  api_key_prefix = prefix;
  webhook_url = client.webhook_url;
  policy_version = client.policy_version;
  updated_at = client.updated_at;
}

module _ {W : Type 0} (s : ClientService W) where
  abbrev with_repository : Exec W (ClientRepository W)
  with_repository = require s.repository (configuration_error "client repository is not configured")

  -- The checks that every method for one client begins with.
  abbrev pub for_client : ℕ → String → Exec W (ClientRepository W × ℕ)
  for_client operator_id client_id = do
    lift (reject_if (operator_id == 0) unauthenticated)
    repository ← with_repository
    id ← lift (parse_client_id client_id)
    pure (repository, id)

  -- `ListClients`.
  unfoldable pub list_clients : Exec W (List ListOutput)
  unfolding client_list_output
  list_clients = do
    repository ← with_repository
    records ← repository.list_clients
    pure (map client_list_output records)

  -- `GetClient`.
  unfoldable pub get_client : ℕ → String → Exec W ListOutput
  unfolding client_list_output
  get_client operator_id client_id = do
    (repository, id) ← for_client operator_id client_id
    client ← repository.get_client id
    pure (client_list_output client)

  -- `UpdateClientName`.
  unfoldable pub update_client_name : ℕ → String → String → Exec W ListOutput
  unfolding client_list_output validate_client_name_input
  update_client_name operator_id client_id name = do
    (repository, id) ← for_client operator_id client_id
    normalized ← lift (validate_client_name_input name)
    client ← repository.update_client_name id normalized
    pure (client_list_output client)

  -- `updateClientStatus`.
  unfoldable pub update_client_status : ℕ → String → String → Exec W ListOutput
  unfolding client_list_output validate_client_status
  update_client_status operator_id client_id status = do
    (repository, id) ← for_client operator_id client_id
    lift (validate_client_status status)
    client ← repository.update_client_status id status
    pure (client_list_output client)

  -- `ActivateClient`.
  unfoldable pub activate_client : ℕ → String → Exec W ListOutput
  unfolding update_client_status
  activate_client operator_id client_id = update_client_status operator_id client_id status_active

  -- `DeactivateClient`.
  unfoldable pub deactivate_client : ℕ → String → Exec W ListOutput
  unfolding update_client_status
  deactivate_client operator_id client_id =
      update_client_status operator_id client_id status_inactive

  -- `UpdateClientPolicyVersion`.
  unfoldable pub update_client_policy_version : ℕ → String → String → Exec W ListOutput
  unfolding client_list_output validate_policy_version_input assigned_policy
  update_client_policy_version operator_id client_id policy_version = do
    (repository, id) ← for_client operator_id client_id
    normalized ← lift (validate_policy_version_input policy_version)
    lift (assigned_policy s.policy_validator normalized)
    client ← repository.update_client_policy_version id normalized
    pure (client_list_output client)

  module _ (crypto : Crypto W) where
    -- `RotateClientAPIKey`.
    unfoldable pub rotate_client_api_key : ℕ → String → Exec W RotateApiKeyOutput
    unfolding generate_api_key hash_api_key api_key_prefix
    rotate_client_api_key operator_id client_id = do
      (repository, id) ← for_client operator_id client_id
      api_key ← generate_api_key crypto
      client ←
          repository.rotate_client_api_key id (hash_api_key crypto api_key) (api_key_prefix api_key)
      pure (rotated_output client api_key (api_key_prefix api_key))

    -- A signing secret, for a callback only.
    abbrev pub secret_for : String → Exec W String
    secret_for webhook_url = if str_eq webhook_url "" then pure "" else generate_secret crypto

    -- The row of a new client.
    unfoldable pub new_client : CreateInput → String → String → ClientApplication
    unfolding hash_api_key api_key_prefix
    new_client input api_key webhook_secret = record {
      id = 0;
      created_at = 0;
      updated_at = 0;
      user_id = input.user_id;
      name = input.name;
      api_key_hash = hash_api_key crypto api_key;
      api_key_prefix = api_key_prefix api_key;
      status = status_active;
      webhook_url = input.webhook_url;
      webhook_secret = webhook_secret;
      policy_version = input.policy_version;
    }

    -- `CreateClient` from the generation of the key on.
    unfoldable pub store_client : ClientRepository W → CreateInput → Exec W CreateOutput
    unfolding generate_api_key generate_secret new_client
    store_client repository input = do
      api_key ← generate_api_key crypto
      secret ← secret_for input.webhook_url
      client ← repository.create_client (new_client input api_key secret)
      pure (created_output client api_key secret)

    module _ {Ip : Type 0} (net : Addresses Ip) where
      -- `UpdateClientWebhook`.
      unfoldable pub update_client_webhook : ℕ → String → String → Exec W UpdateWebhookOutput
      unfolding client_webhook_output validate_webhook_url_input generate_secret
      update_client_webhook operator_id client_id webhook_url = do
        (repository, id) ← for_client operator_id client_id
        normalized ← lift (validate_webhook_url_input net webhook_url)
        secret ← secret_for normalized
        client ← repository.update_client_webhook id normalized secret
        pure (
            client_webhook_output client
              (if str_eq normalized "" then "" else client.webhook_secret))

      abbrev pub policy_of_new : String → Result (Unit {0})
      policy_of_new version =
          if str_eq version "" then ok tt else assigned_policy s.policy_validator version

      -- `CreateClient`.
      unfoldable pub create_client : CreateInput → Exec W CreateOutput
      unfolding validate_create_input assigned_policy store_client
      create_client input = do
        repository ← with_repository
        normalized ← lift (validate_create_input net input)
        lift (policy_of_new normalized.policy_version)
        store_client repository normalized
