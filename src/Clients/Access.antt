-- ===== src/Clients/Access.antt =====
-- internal/clients: which API keys authenticate, after keys are rotated and clients switched off.
use hate_sentry.Base.{
  ℕ, ◌==◌, ◌&&◌, ◌≡◌, ◌≢◌, refl, sym, ap, ◌∙◌, ◌⊎◌, inl, inr, String, true, false, Bool-cases,
  Option, none, some, str_eq, eq_iff, arith,
}
use hate_sentry.Errors.{Error, ok, err, Result-cases}
use hate_sentry.Models.{Time, ClientApplication}
use hate_sentry.Crypto.{Crypto, with_random}
use hate_sentry.Auth.{ApiKeyPrincipal, generate_api_key, hash_api_key, api_key_prefix}
use hate_sentry.Database.{Database, database_error_of}
use hate_sentry.Database.Keyed.{IsKeyed, IsTransactional}
use hate_sentry.Moderation.Validate.{unauthenticated}
use hate_sentry.Clients.{
  ClientService, RotateApiKeyOutput, ListOutput, status_active, status_inactive,
}
use hate_sentry.Clients.Input.{parse_client_id, client_list_output, validate_client_status}
use hate_sentry.Clients.Service.{
  for_client, rotated_output, rotate_client_api_key, update_client_status, deactivate_client,
}
use hate_sentry.Clients.Repository.{authenticate_api_key, gorm_client_repository, updated_column}
use hate_sentry.Clients.Repository
use hate_sentry.Clients.Repository.Changed.{
  stamp_client, updated_column-ok, rotate_client_api_key-ok,
}

inactive-ne-active : status_inactive ≢ status_active
inactive-ne-active p = let same : false ≡ true = (eq_iff status_inactive status_active).1 p in cc

module _ {W : Type 0} (db : Database W) (at : W → ℕ → Option ClientApplication)
    (law : IsKeyed db.clients (λ row. row.id) stamp_client at) (crypto : Crypto W) where
  -- A key that authenticates is the key of the client that it stands for: the client is in the
  -- table, it is active, its hash is that of the key, and the principal carries its user. The
  -- table of clients is keyed.
  pub authenticate_api_key-ok :
      (key : String) (w : W) {principal : ApiKeyPrincipal}
      → (authenticate_api_key (some db) crypto key w).0 ≡ ok principal
      → (client : ClientApplication) × (at w principal.client_id ≡ some client)
        × (client.api_key_hash ≡ hash_api_key crypto key)
        × (client.status ≡ status_active)
        × (principal
            ≡ record { client_id = client.id; user_id = client.user_id; name = client.name })
  unfolding authenticate_api_key
  authenticate_api_key-ok key w {principal} h =
      let test = λ (row : ClientApplication).
        str_eq row.api_key_hash (hash_api_key crypto key) && str_eq row.status status_active in
      elim (Result-cases ((db.clients.first test w).0)) [
        | inr (e, failed) ↦ let refused : err _ ≡ ok principal = rw failed at h in cc
        | inl (none, missing) ↦ let refused : err _ ≡ ok principal = rw missing at h in cc
        | inl (some client, found) ↦
            let made : ok
                  (record { client_id = client.id; user_id = client.user_id; name = client.name })
                ≡ ok principal =
              rw found at h in
            let same : principal
                ≡ record { client_id = client.id; user_id = client.user_id; name = client.name } =
              cc in
            let (here, fits) = law.first_found test w client found in
            let hash : client.api_key_hash ≡ hash_api_key crypto key =
              ground (arith, eq_iff client.api_key_hash (hash_api_key crypto key)) in
            let active : client.status ≡ status_active =
              ground (arith, eq_iff client.status status_active) in
            (client, ap (λ p. at w (ApiKeyPrincipal.client_id p)) same ∙ here, hash, active, same)
      ]

  -- A client that is not active, or whose key has another hash, is not authenticated by the key.
  authenticate_api_key-excludes :
      (key : String) (w : W) (id : ℕ) (row : ClientApplication) {principal : ApiKeyPrincipal}
      → at w id ≡ some row
      → (row.status ≢ status_active) ⊎ (row.api_key_hash ≢ hash_api_key crypto key)
      → (authenticate_api_key (some db) crypto key w).0 ≡ ok principal
      → principal.client_id ≢ id
  authenticate_api_key-excludes key w id row {principal} here other h same =
      let (client, there, hash, active, _) = authenticate_api_key-ok key w h in
      let one : some client ≡ some row = sym there ∙ ap (at w) same ∙ here in
      let equal : client ≡ row = cc in
      elim other [
        | inl off ↦ off (sym (ap (λ r. ClientApplication.status r) equal) ∙ active)
        | inr differs ↦ differs (sym (ap (λ r. ClientApplication.api_key_hash r) equal) ∙ hash)
      ]

  -- The key of an active client that stands in the table authenticates a client, unless the table
  -- cannot be read. The table of clients is keyed.
  pub authenticate_api_key-live :
      (key : String) (w : W) (id : ℕ) (row : ClientApplication)
      → at w id ≡ some row
      → row.status ≡ status_active
      → row.api_key_hash ≡ hash_api_key crypto key
      → ((x : Error) × ((authenticate_api_key (some db) crypto key w).0
            ≡ err (database_error_of x "failed to authenticate api key")))
        ⊎ ((principal : ApiKeyPrincipal) × ((authenticate_api_key (some db) crypto key w).0
              ≡ ok principal))
  unfolding authenticate_api_key
  authenticate_api_key-live key w id row here active hash =
      let test = λ (r : ClientApplication).
        str_eq r.api_key_hash (hash_api_key crypto key) && str_eq r.status status_active in
      elim (Result-cases ((db.clients.first test w).0)) [
        | inr (e, failed) ↦ inl (e, rw failed refl)
        | inl (some client, found) ↦ inr (
          record { client_id = client.id; user_id = client.user_id; name = client.name },
          rw found refl,
        )
        | inl (none, missing) ↦
            let unfit = law.first_missing test w id row missing here in
            let same_hash = (eq_iff row.api_key_hash (hash_api_key crypto key)).1 hash in
            let same_status = (eq_iff row.status status_active).1 active in
            let fits : test row ≡ true = rw (same_hash, same_status) refl in cc
      ]

  module _ (s : ClientService W)
      (own : s.repository ≡ some (gorm_client_repository (some db))) where
    -- What a call for one client begins with: its id, or an error.
    for_client-cases :
        (operator_id : ℕ) (client_id : String) (w : W)
        → ((e : Error) × (for_client s operator_id client_id w ≡ (err e, w)))
          ⊎ ((id : ℕ) × (parse_client_id client_id ≡ ok id)
              × (for_client s operator_id client_id w
                  ≡ (ok (gorm_client_repository (some db), id), w)))
    for_client-cases operator_id client_id w = elim (Bool-cases (operator_id == 0)) [
      | inl nobody ↦ inl (unauthenticated, rw nobody refl)
      | inr operator ↦ elim (Result-cases (parse_client_id client_id)) [
        | inr (e, bad) ↦ inl (e, rw (operator, own, bad) refl)
        | inl (id, good) ↦ inr (id, good, rw (operator, own, good) refl)
      ]
    ]

    update_client_status-ok :
        (id : ℕ) (status : String) (w : W) {client : ClientApplication}
        → (Repository.update_client_status (some db) id status w).0 ≡ ok client
        → (row : ClientApplication) × (t : Time) × (at w id ≡ some row)
          × (client ≡ stamp_client t (record row { status = status }))
          × (at ((Repository.update_client_status (some db) id status w).1) id ≡ some client)
    unfolding Repository.update_client_status
    update_client_status-ok id status w h =
        updated_column-ok db at law "failed to update client status" id
          (λ r. record r { status = status }) w (λ r. refl) h

    -- After a rotation that has returned a key, and as long as the client's row stands unchanged, a
    -- key with another hash never authenticates that client; the row holds the hash of the new key
    -- and otherwise what it held before, the prefix of the key and the time of update apart. The
    -- service is on the database, whose table of clients is keyed and transactional; random numbers
    -- change no row.
    pub rotate_client_api_key-revokes :
        (isolated : IsTransactional db at)
        (quiet : (n : ℕ) (x : W) (k : ℕ) → at ((crypto.random n x).1) k ≡ at x k) (operator_id : ℕ)
        (client_id : String) (old_key : String) (w v : W) (principal : ApiKeyPrincipal)
        {output : RotateApiKeyOutput}
        → (rotate_client_api_key s crypto operator_id client_id w).0 ≡ ok output
        → at v output.id ≡ at ((rotate_client_api_key s crypto operator_id client_id w).1) output.id
        → hash_api_key crypto old_key ≢ hash_api_key crypto output.api_key
        → principal.client_id ≡ output.id
        → (row : ClientApplication) × (t : Time) × (at w output.id ≡ some row)
          × (at v output.id
              ≡ some (
                  stamp_client t (record row {
                    api_key_hash = hash_api_key crypto output.api_key;
                    api_key_prefix = api_key_prefix output.api_key;
                  })))
          × ((authenticate_api_key (some db) crypto old_key v).0 ≢ ok principal)
    unfolding rotate_client_api_key generate_api_key with_random
    rotate_client_api_key-revokes isolated quiet operator_id client_id old_key w v principal
          {output} h stands other named =
        elim (for_client-cases operator_id client_id w) [
          | inl (e, failed) ↦ let refused : err e ≡ ok output = rw failed at h in cc
          | inr (id, parsed, begun) ↦ elim (Result-cases ((generate_api_key crypto w).0)) [
            | inr (e, failed) ↦ let refused : err e ≡ ok output = rw (begun, failed) at h in cc
            | inl (key, made) ↦
                let u = (generate_api_key crypto w).1 in
                let call =
                  Repository.rotate_client_api_key (some db) id (hash_api_key crypto key)
                    (api_key_prefix key) u in
                elim (Result-cases (call.0)) [
                  | inr (e, failed) ↦
                      let refused : err e ≡ ok output = rw (begun, made, failed) at h in cc
                  | inl (client, rotated) ↦
                      let (row, t, here, result, after) =
                        rotate_client_api_key-ok db at law isolated id (hash_api_key crypto key)
                          (api_key_prefix key) u rotated in
                      let done : ok (rotated_output client key (api_key_prefix key)) ≡ ok output =
                        rw (begun, made, rotated) at h in
                      let same : output ≡ rotated_output client key (api_key_prefix key) = cc in
                      let key_eq : output.api_key ≡ key =
                        ap (λ o. RotateApiKeyOutput.api_key o) same in
                      let id_eq : output.id ≡ id =
                        ap (λ o. RotateApiKeyOutput.id o) same
                        ∙ law.keyed (call.1) id client after in
                      let ends : (rotate_client_api_key s crypto operator_id client_id w).1
                          ≡ call.1 =
                        rw (begun, made, rotated) refl in
                      let now : at v output.id ≡ some client =
                        stands ∙ ap (λ x. at x output.id) ends ∙ ap (at (call.1)) id_eq ∙ after in
                      let hash : client.api_key_hash ≡ hash_api_key crypto output.api_key =
                        ap (λ r. ClientApplication.api_key_hash r) result
                        ∙ ap (hash_api_key crypto) (sym key_eq) in
                      let written =
                        result
                        ∙ ap
                            (λ k. stamp_client t (record row {
                              api_key_hash = hash_api_key crypto k;
                              api_key_prefix = api_key_prefix k;
                            }))
                            (sym key_eq) in
                      (
                        row,
                        t,
                        ap (at w) id_eq ∙ sym (quiet 32 w id) ∙ here,
                        now ∙ ap some written,
                        λ login.
                            authenticate_api_key-excludes old_key v output.id client now
                              (inr (λ p. other (sym p ∙ hash))) login named,
                      )
                ]
          ]
        ]

    -- After a client has been switched off, and as long as its row stands unchanged, no key
    -- authenticates it. The service is on the database, whose table of clients is keyed.
    pub deactivate_client-revokes :
        (operator_id : ℕ) (client_id : String) (key : String) (w v : W)
        (principal : ApiKeyPrincipal) {output : ListOutput}
        → (deactivate_client s operator_id client_id w).0 ≡ ok output
        → at v output.id ≡ at ((deactivate_client s operator_id client_id w).1) output.id
        → principal.client_id ≡ output.id
        → (authenticate_api_key (some db) crypto key v).0 ≢ ok principal
    unfolding deactivate_client update_client_status validate_client_status client_list_output
    deactivate_client-revokes operator_id client_id key w v principal {output} h stands named
          login =
        elim (for_client-cases operator_id client_id w) [
          | inl (e, failed) ↦ let refused : err e ≡ ok output = rw failed at h in cc
          | inr (id, parsed, begun) ↦
              let call = Repository.update_client_status (some db) id status_inactive w in
              elim (Result-cases (call.0)) [
                | inr (e, failed) ↦ let refused : err e ≡ ok output = rw (begun, failed) at h in cc
                | inl (client, updated) ↦
                    let (row, t, here, result, after) =
                      update_client_status-ok id status_inactive w updated in
                    let done : ok (client_list_output client) ≡ ok output =
                      rw (begun, updated) at h in
                    let same : output ≡ client_list_output client = cc in
                    let id_eq : output.id ≡ id =
                      ap (λ o. ListOutput.id o) same ∙ law.keyed (call.1) id client after in
                    let ends : (deactivate_client s operator_id client_id w).1 ≡ call.1 =
                      rw (begun, updated) refl in
                    let now : at v output.id ≡ some client =
                      stands ∙ ap (λ x. at x output.id) ends ∙ ap (at (call.1)) id_eq ∙ after in
                    let off : client.status ≡ status_inactive =
                      ap (λ r. ClientApplication.status r) result in
                    authenticate_api_key-excludes key v output.id client now
                      (inl (λ p. inactive-ne-active (sym off ∙ p))) login named
              ]
        ]
