-- ===== src/Tests/Clients.antt =====
-- External clients and their keys, on a table with one client.
use Prim.Native.String.{◌++◌}
use hate_sentry.Base.{◌≡◌, ◌≢◌, refl, ℕ, Option, none, some, [], true, false, eq_iff}
use hate_sentry.Base.Text.{trim_space, is_space}
use hate_sentry.Base.Decimal.{parse_uint}
use hate_sentry.Errors.{ok}
use hate_sentry.Models.{ClientApplication, Time}
use hate_sentry.Crypto.{Crypto, with_random, encoded}
use hate_sentry.Auth.{ApiKeyPrincipal, generate_api_key, hash_api_key, api_key_prefix}
use hate_sentry.Database.{Database, Table}
use hate_sentry.Database.Keyed.{IsKeyed, IsTransactional}
use hate_sentry.Moderation.Types.{review_status_approved, decision_allow}
use hate_sentry.Moderation.Validate.{bounded, parse_id}
use hate_sentry.Clients.{ClientService, CreateInput, CreateOutput, status_active}
use hate_sentry.Clients.Input.{
  validate_create_input, validate_client_name_input, validate_client_status, client_list_output,
  assigned_policy,
}
use hate_sentry.Clients.Service.{
  rotate_client_api_key, deactivate_client, update_client_status, create_client, store_client,
  new_client,
}
use hate_sentry.Clients.Service.Created.{IsCreated, create_client-IsCreated}
use hate_sentry.Clients.Repository.{
  authenticate_api_key, gorm_client_repository, updated_column, changed_row,
}
use hate_sentry.Clients.Repository
use hate_sentry.Clients.Repository.Changed.{stamp_client}
use hate_sentry.Clients.Access.{
  authenticate_api_key-ok, rotate_client_api_key-revokes, deactivate_client-revokes,
}
use hate_sentry.Tests.Tables.{fixed_table, one_table, row_at, one_table-IsKeyed}
use hate_sentry.Tests.Sample.{
  stored_user, stored_request, stored_row, failed_delivery, approved_case,
}
use hate_sentry.Tests.Callbacks.{addresses}

abbrev pub some_client : ClientApplication
some_client = record {
  id = 7;
  created_at = 2;
  updated_at = 2;
  user_id = 1;
  name = "forum";
  api_key_hash = "#old";
  api_key_prefix = "old";
  status = "active";
  webhook_url = "";
  webhook_secret = "";
  policy_version = "";
}

abbrev ClientWorld : Type 0
ClientWorld = Option ClientApplication

abbrev client_table : Table ClientWorld ClientApplication
client_table = one_table (λ row. row.id) stamp_client

abbrev client_database : Database ClientWorld
client_database = record {
  users = fixed_table stored_user;
  ensure_lock = λ lock w. (ok tt, w);
  hold_lock = λ p w. (ok none, w);
  requests = fixed_table stored_request;
  results = fixed_table stored_row;
  review_cases = fixed_table (approved_case 3 2 review_status_approved decision_allow "" 5);
  clients = client_table;
  deliveries = fixed_table failed_delivery;
  find_results_joined = λ q p w. (ok [], w);
  begin = λ w. (ok tt, w);
  commit = λ w. (ok tt, w);
  rollback = λ w v. w;
}

abbrev client_at : ClientWorld → ℕ → Option ClientApplication
client_at = row_at (λ row. row.id) stamp_client

abbrev client_law : IsKeyed client_table (λ row. row.id) stamp_client client_at
client_law = one_table-IsKeyed (λ row. row.id) stamp_client (λ t row. refl)

abbrev client_isolated : IsTransactional client_database client_at
client_isolated = record {
  begun = λ w k. refl;
  committed = λ w k done. refl;
  rolled_back = λ w v k. refl;
}

-- A hash that tells all keys apart.
abbrev crypto : Crypto ClientWorld
crypto = record {
  random = λ n w. (ok [], w);
  base64_raw_url = λ bytes. "new";
  sha256_hex = λ s. "#" ++ s;
  hmac_sha256_hex = λ secret body. secret ++ body;
}

abbrev client_service : ClientService ClientWorld
client_service = record {
  repository = some (gorm_client_repository (some client_database));
  policy_validator = none;
}

abbrev rotated_client : ClientApplication
rotated_client = record some_client {
  updated_at = 50;
  api_key_hash = "#hs_live_new";
  api_key_prefix = "hs_live_new";
}

abbrev principal : ApiKeyPrincipal
principal = record { client_id = 7; user_id = 1; name = "forum" }

authenticate_api_key-ok_example :
    (client : ClientApplication) × (client_at (some some_client) 7 ≡ some client)
    × (client.api_key_hash ≡ hash_api_key crypto "old")
    × (client.status ≡ status_active)
    × (principal ≡ record { client_id = client.id; user_id = client.user_id; name = client.name })
unfolding authenticate_api_key hash_api_key trim_space is_space
authenticate_api_key-ok_example =
    authenticate_api_key-ok client_database client_at client_law crypto "old" (some some_client)
      refl

old-ne-new : some_client.api_key_hash ≢ rotated_client.api_key_hash
old-ne-new p = let same : false ≡ true = (eq_iff "#old" "#hs_live_new").1 p in cc

rotate_client_api_key-revokes_example :
    (row : ClientApplication) × (t : Time) × (client_at (some some_client) 7 ≡ some row)
    × (client_at (some rotated_client) 7
        ≡ some (
            stamp_client t (record row {
              api_key_hash = hash_api_key crypto "hs_live_new";
              api_key_prefix = api_key_prefix "hs_live_new";
            })))
    × ((authenticate_api_key (some client_database) crypto "old" (some rotated_client)).0
        ≢ ok principal)
unfolding rotate_client_api_key Repository.rotate_client_api_key changed_row generate_api_key
    with_random encoded hash_api_key api_key_prefix trim_space is_space parse_id parse_uint
rotate_client_api_key-revokes_example =
    rotate_client_api_key-revokes client_database client_at client_law crypto client_service refl
      client_isolated (λ n x k. refl) 1 "7" "old" (some some_client) (some rotated_client) principal
      refl refl old-ne-new refl

abbrev inactive_client : ClientApplication
inactive_client = record some_client { updated_at = 50; status = "inactive" }

deactivate_client-revokes_example :
    (authenticate_api_key (some client_database) crypto "old" (some inactive_client)).0
    ≢ ok principal
unfolding deactivate_client update_client_status Repository.update_client_status updated_column
    validate_client_status client_list_output trim_space is_space parse_id parse_uint
deactivate_client-revokes_example =
    deactivate_client-revokes client_database client_at client_law crypto client_service refl 1 "7"
      "old" (some some_client) (some inactive_client) principal refl refl refl

abbrev create_input : CreateInput
create_input = record { user_id = 1; name = " forum "; webhook_url = ""; policy_version = "" }

abbrev created : CreateOutput
created = record {
  id = 0;
  name = "forum";
  status = "active";
  api_key = "hs_live_new";
  api_key_prefix = "hs_live_new";
  webhook_secret = "";
  webhook_url = "";
  policy_version = "";
  created_at = 0;
}

create_client-IsCreated_example :
    IsCreated addresses client_service
      (gorm_client_repository (some client_database))
      crypto
      refl
      create_input
      created
unfolding create_client store_client new_client validate_create_input validate_client_name_input
    bounded assigned_policy Repository.create_client generate_api_key with_random encoded
    hash_api_key api_key_prefix trim_space is_space
create_client-IsCreated_example =
    create_client-IsCreated addresses client_service (gorm_client_repository (some client_database))
      crypto refl create_input none refl
