-- ===== src/Clients/Repository.antt =====
-- internal/clients/repository.go: `GormRepository`, over the interface to the database.
pub mod Changed
use hate_sentry.Base.{ℕ, String, Bool, true, ◌&&◌, ◌==◌, ltb, Option, none, some, List, str_eq}
use hate_sentry.Errors.{
  Error, Result, ok, err, fail, raised, configuration_error, unauthorized_error, plain_error,
}
use hate_sentry.Exec.{Exec, pure, lift, require, continue, ◌>>=◌, ◌>>◌}
use hate_sentry.Models.{ClientApplication}
use hate_sentry.Crypto.{Crypto}
use hate_sentry.Database.{Database, Table, Query, report, transaction, database_error_of}
use hate_sentry.Auth.{ApiKeyPrincipal, hash_api_key}
use hate_sentry.Clients.{ClientRepository, status_active}
use hate_sentry.Moderation.Repository.Loading.{found_or}

abbrev connected : {W : Type 0} → Option (Database W) → Exec W (Database W)
connected connection = require connection (configuration_error "client database is not configured")

-- `gorm.ErrRecordNotFound`, where the source does not tell it from other errors.
abbrev read_again : Option ClientApplication → Result ClientApplication
read_again (some client) = ok client
read_again none =
    err (database_error_of (plain_error "record not found") "failed to retrieve client")

abbrev principal_of : Option ClientApplication → Result ApiKeyPrincipal
principal_of none = fail (unauthorized_error "Invalid API key")
principal_of (some client) =
    ok (record { client_id = client.id; user_id = client.user_id; name = client.name })

module _ {W : Type 0} where
  -- `First(&client, clientID)`.
  abbrev pub first_client : Database W → ℕ → Exec W (Option ClientApplication)
  first_client db client_id =
      report "failed to retrieve client" (db.clients.first (λ row. row.id == client_id))

  abbrev pub the_client : Database W → ℕ → Exec W ClientApplication
  the_client db client_id = do
    found ← first_client db client_id
    lift (found_or "Client not found" found)

  -- The update of one column, after which the row is read: the shape of `UpdateClientName`,
  -- `UpdateClientStatus` and `UpdateClientPolicyVersion`.
  unfoldable pub updated_column :
      Option (Database W)
      → String
      → ℕ
      → (ClientApplication → ClientApplication)
      → Exec W ClientApplication
  updated_column connection message client_id change = do
    db ← connected connection
    affected ← report message (db.clients.updates (λ row. row.id == client_id) change)
    the_client db client_id

  -- The body of the transaction of `UpdateClientWebhook` and of `RotateClientAPIKey`.
  unfoldable pub changed_row :
      Database W → String → ℕ → (ClientApplication → ClientApplication) → Exec W ClientApplication
  changed_row db message client_id change = do
    locked ← the_client db client_id
    affected ← report message (db.clients.updates (λ row. row.id == client_id) change)
    found ← first_client db client_id
    lift (read_again found)

  module _ (connection : Option (Database W)) where
    -- `CreateClient`.
    unfoldable pub create_client : ClientApplication → Exec W ClientApplication
    create_client client = do
      db ← connected connection
      report "failed to create client" (db.clients.create client)

    -- `ListClients`.
    unfoldable pub list_clients : Exec W (List ClientApplication)
    list_clients = do
      db ← connected connection
      report "failed to list clients" (
          db.clients.find (record {
            matches = λ row. true;
            before = λ a b. ltb b.created_at a.created_at;
            limit = none;
          }))

    -- `GetClient`.
    unfoldable pub get_client : ℕ → Exec W ClientApplication
    get_client client_id = do db ← connected connection; the_client db client_id

    -- `UpdateClientName`.
    unfoldable pub update_client_name : ℕ → String → Exec W ClientApplication
    unfolding updated_column
    update_client_name client_id name =
        updated_column connection "failed to update client name" client_id
          (λ row. record row { name = name })

    -- `UpdateClientStatus`.
    unfoldable pub update_client_status : ℕ → String → Exec W ClientApplication
    unfolding updated_column
    update_client_status client_id status =
        updated_column connection "failed to update client status" client_id
          (λ row. record row { status = status })

    -- `UpdateClientPolicyVersion`.
    unfoldable pub update_client_policy_version : ℕ → String → Exec W ClientApplication
    unfolding updated_column
    update_client_policy_version client_id policy_version =
        updated_column connection "failed to update client policy version" client_id
          (λ row. record row { policy_version = policy_version })

    -- `UpdateClientWebhook`.
    unfoldable pub update_client_webhook : ℕ → String → String → Exec W ClientApplication
    unfolding changed_row
    update_client_webhook client_id webhook_url webhook_secret = do
      db ← connected connection
      transaction db (
          changed_row db "failed to update client webhook" client_id
            (λ row. record row { webhook_url = webhook_url; webhook_secret = webhook_secret }))

    -- `RotateClientAPIKey`.
    unfoldable pub rotate_client_api_key : ℕ → String → String → Exec W ClientApplication
    unfolding changed_row
    rotate_client_api_key client_id api_key_hash api_key_prefix = do
      db ← connected connection
      transaction db (
          changed_row db "failed to rotate client api key" client_id
            (λ row. record row { api_key_hash = api_key_hash; api_key_prefix = api_key_prefix }))

    -- `AuthenticateAPIKey`.
    unfoldable pub authenticate_api_key : Crypto W → String → Exec W ApiKeyPrincipal
    unfolding hash_api_key
    authenticate_api_key crypto key = do
      db ← connected connection
      found ← report "failed to authenticate api key" (
          db.clients.first (λ row.
            str_eq row.api_key_hash (hash_api_key crypto key) && str_eq row.status status_active))
      lift (principal_of found)

    -- `NewGormRepository`, seen as the interface that the service has.
    abbrev pub gorm_client_repository : ClientRepository W
    gorm_client_repository = record {
      create_client = create_client;
      list_clients = list_clients;
      get_client = get_client;
      update_client_name = update_client_name;
      update_client_status = update_client_status;
      update_client_policy_version = update_client_policy_version;
      update_client_webhook = update_client_webhook;
      rotate_client_api_key = rotate_client_api_key;
    }
