-- ===== src/Clients/Service/Created.antt =====
-- internal/clients/service.go: what `CreateClient` stores.
use hate_sentry.Base.{
  ◌==◌, ◌≡◌, ◌≢◌, ◌≤◌, refl, sym, ap, ◌∙◌, ◌⊎◌, inl, inr, String, Bool-cases, some, str_eq, eq_iff,
  len, ltb, arith,
}
use hate_sentry.Base.Text.{trim_space}
use hate_sentry.Errors.{ok, err, Result-cases, reject_if-ok, >>=-eq-ok}
use hate_sentry.Models.{ClientApplication}
use hate_sentry.Crypto.{Crypto}
use hate_sentry.Auth.{generate_api_key, hash_api_key}
use hate_sentry.Webhooks.{generate_secret}
use hate_sentry.Webhooks.Address.{Addresses}
use hate_sentry.Moderation.Validate.{bounded}
use hate_sentry.Clients.{
  ClientRepository, ClientService, CreateInput, CreateOutput, status_active, max_name_length,
}
use hate_sentry.Clients.Input.{valid_callback, validate_create_input, validate_client_name_input}
use hate_sentry.Clients.Service.{
  secret_for, new_client, policy_of_new, created_output, store_client, create_client,
}

module _ {Ip : Type 0} (net : Addresses Ip) where
  -- What an accepted input of a new client is.
  pub record IsAccepted (input accepted : CreateInput) : Type 0 where
    pub same_user : accepted.user_id ≡ input.user_id
    pub has_user : accepted.user_id ≢ 0
    pub same_name : accepted.name ≡ trim_space input.name
    pub name_given : accepted.name ≢ ""
    pub name_bounded : len accepted.name ≤ max_name_length
    pub same_url : accepted.webhook_url ≡ trim_space input.webhook_url
    pub callback : valid_callback net accepted.webhook_url ≡ ok tt
    pub same_version : accepted.policy_version ≡ trim_space input.policy_version

  validate_client_name_input-ok :
      (name : String) {accepted : String}
      → validate_client_name_input name ≡ ok accepted
      → (accepted ≡ trim_space name) × (accepted ≢ "") × (len accepted ≤ max_name_length)
  unfolding validate_client_name_input bounded
  validate_client_name_input-ok name {accepted} h =
      let (given, h1) = reject_if-ok (str_eq (trim_space name) "") _ _ h in
      let (short, h2) = reject_if-ok (ltb max_name_length (len (trim_space name))) _ _ h1 in
      let same : accepted ≡ trim_space name = cc in
      (same, λ p. ground (arith, eq_iff (trim_space name) ""), rw same (ground arith))

  validate_create_input-ok :
      (input : CreateInput) {accepted : CreateInput}
      → validate_create_input net input ≡ ok accepted
      → IsAccepted input accepted
  unfolding validate_create_input bounded
  validate_create_input-ok input {accepted} h =
      let (user, h1) = reject_if-ok (input.user_id == 0) _ _ h in
      let (name, named, h2) = >>=-eq-ok (validate_client_name_input input.name) _ h1 in
      let (_, h3) = reject_if-ok (ltb 500 (len (trim_space input.webhook_url))) _ _ h2 in
      let (done, valid, h4) = >>=-eq-ok (valid_callback net (trim_space input.webhook_url)) _ h3 in
      let (_, h5) = reject_if-ok (ltb 50 (len (trim_space input.policy_version))) _ _ h4 in
      let (same, given, short) = validate_client_name_input-ok input.name named in
      let made : record input {
        name = name;
        webhook_url = trim_space input.webhook_url;
        policy_version = trim_space input.policy_version;
      }
          ≡ accepted =
        cc in
      let name_eq : name ≡ accepted.name = ap (λ i. CreateInput.name i) made in
      let url_eq : trim_space input.webhook_url ≡ accepted.webhook_url =
        ap (λ i. CreateInput.webhook_url i) made in
      let user_eq : input.user_id ≡ accepted.user_id = ap (λ i. CreateInput.user_id i) made in
      record {
        same_user = sym user_eq;
        has_user = λ p. ground arith;
        same_name = sym name_eq ∙ same;
        name_given = λ p. given (name_eq ∙ p);
        name_bounded = rw (sym name_eq) short;
        same_url = sym url_eq;
        callback = ap (valid_callback net) (sym url_eq) ∙ valid;
        same_version = sym (ap (λ i. CreateInput.policy_version i) made);
      }

  secret_for-cases :
      {W : Type 0} (s : ClientService W) (crypto : Crypto W) (url : String) (w : W)
      {secret : String}
      → (secret_for s crypto url w).0 ≡ ok secret
      → ((url ≡ "") × (secret ≡ "")) ⊎ ((url ≢ "") × ((generate_secret crypto w).0 ≡ ok secret))
  secret_for-cases s crypto url w {secret} h = elim (Bool-cases (str_eq url "")) [
    | inl blank ↦
        let none_made : ok "" ≡ ok secret = rw blank at h in inl ((eq_iff url "").0 blank, cc)
    | inr given ↦ inr ((λ p. ground (arith, eq_iff url "")), rw given at h)
  ]

  module _ {W : Type 0} (s : ClientService W) (repository : ClientRepository W) (crypto : Crypto W)
      (own : s.repository ≡ some repository) where
    -- The row that was stored for the accepted input, with a key that was generated.
    pub record IsCreated (input : CreateInput) (output : CreateOutput) : Type 0 where
      pub accepted : CreateInput
      pub is_accepted : IsAccepted input accepted
      pub is_policy : policy_of_new s crypto net accepted.policy_version ≡ ok tt
      pub secret : String
      pub secret_in : W
      pub is_secret :
          ((accepted.webhook_url ≡ "") × (secret ≡ ""))
          ⊎ ((accepted.webhook_url ≢ "") × ((generate_secret crypto secret_in).0 ≡ ok secret))
      pub row : ClientApplication
      pub row_user : row.user_id ≡ accepted.user_id
      pub row_hash : row.api_key_hash ≡ hash_api_key crypto output.api_key
      pub row_status : row.status ≡ status_active
      pub row_callback : (row.webhook_url ≡ accepted.webhook_url) × (row.webhook_secret ≡ secret)
      pub stored_in : W
      pub client : ClientApplication
      pub is_stored : (repository.create_client row stored_in).0 ≡ ok client
      pub is_output : output ≡ created_output client output.api_key secret

    stored-IsCreated :
        (input accepted : CreateInput) (key secret : String) (u v : W) (client : ClientApplication)
        {output : CreateOutput}
        → validate_create_input net input ≡ ok accepted
        → policy_of_new s crypto net accepted.policy_version ≡ ok tt
        → ((accepted.webhook_url ≡ "") × (secret ≡ ""))
          ⊎ ((accepted.webhook_url ≢ "") × ((generate_secret crypto u).0 ≡ ok secret))
        → (repository.create_client (new_client s crypto accepted key secret) v).0 ≡ ok client
        → output ≡ created_output client key secret
        → IsCreated input output
    unfolding new_client
    stored-IsCreated input accepted key secret u v client {output} good policy kept stored same =
        let key_eq : key ≡ output.api_key = sym (ap (λ o. CreateOutput.api_key o) same) in
        record {
          accepted = accepted;
          is_accepted = validate_create_input-ok input good;
          is_policy = policy;
          secret = secret;
          secret_in = u;
          is_secret = kept;
          row = new_client s crypto accepted key secret;
          row_user = refl;
          row_hash = ap (hash_api_key crypto) key_eq;
          row_status = refl;
          row_callback = (refl, refl);
          stored_in = v;
          client = client;
          is_stored = stored;
          is_output = same ∙ ap (λ k. created_output client k secret) key_eq;
        }

    store_client-IsCreated :
        (input accepted : CreateInput) (w : W) {output : CreateOutput}
        → validate_create_input net input ≡ ok accepted
        → policy_of_new s crypto net accepted.policy_version ≡ ok tt
        → (store_client s crypto repository accepted w).0 ≡ ok output
        → IsCreated input output
    unfolding store_client
    store_client-IsCreated input accepted w {output} good policy h =
        elim (Result-cases ((generate_api_key crypto w).0)) [
          | inr (e, failed) ↦ let refused : err e ≡ ok output = rw failed at h in cc
          | inl (key, made) ↦
              let u = (generate_api_key crypto w).1 in
              elim (Result-cases ((secret_for s crypto accepted.webhook_url u).0)) [
                | inr (e, failed) ↦ let refused : err e ≡ ok output = rw (made, failed) at h in cc
                | inl (secret, kept) ↦
                    let v = (secret_for s crypto accepted.webhook_url u).1 in
                    elim (Result-cases
                      ((repository.create_client (new_client s crypto accepted key secret) v).0)) [
                        | inr (e, failed) ↦
                            let refused : err e ≡ ok output = rw (made, kept, failed) at h in cc
                        | inl (client, stored) ↦
                            let done : ok (created_output client key secret) ≡ ok output =
                              rw (made, kept, stored) at h in
                            let same : output ≡ created_output client key secret = cc in
                            stored-IsCreated input accepted key secret u v client good policy
                              (secret_for-cases s crypto accepted.webhook_url u kept) stored same
                      ]
              ]
        ]

    -- On a service with a repository, CreateClient returns a client only for an accepted input and
    -- policy, after a row has been stored that is active, has the hash of the returned key, and has
    -- a secret exactly if it has a callback.
    pub create_client-IsCreated :
        (input : CreateInput) (w : W) {output : CreateOutput}
        → (create_client s crypto net input w).0 ≡ ok output
        → IsCreated input output
    unfolding create_client
    create_client-IsCreated input w {output} h =
        elim (Result-cases (validate_create_input net input)) [
          | inr (e, bad) ↦ let refused : err e ≡ ok output = rw (own, bad) at h in cc
          | inl (accepted, good) ↦
              elim (Result-cases (policy_of_new s crypto net accepted.policy_version)) [
                | inr (e, unknown) ↦
                    let refused : err e ≡ ok output = rw (own, good, unknown) at h in cc
                | inl (_, policy) ↦
                    let stored : (store_client s crypto repository accepted w).0 ≡ ok output =
                      rw (own, good, policy) at h in
                    store_client-IsCreated input accepted w good policy stored
              ]
        ]
