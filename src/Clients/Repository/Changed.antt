-- ===== src/Clients/Repository/Changed.antt =====
-- internal/clients/repository.go: what a change of one client leaves in the table.
use hate_sentry.Base.{
  ℕ, ◌==◌, ◌≡◌, refl, sym, ap, ◌∙◌, inl, inr, String, true, Option-cases, Option, none, some, arith,
}
use hate_sentry.Errors.{ok, err, Result-cases}
use hate_sentry.Models.{Time, ClientApplication}
use hate_sentry.Database.{Database}
use hate_sentry.Database.Keyed.{IsKeyed, IsTransactional, Selects, Keeps, changed_if}
use hate_sentry.Database.Rows.{first-some}
use hate_sentry.Database.Transactions.{transaction-ok}
use hate_sentry.Clients.Repository.{
  the_client, first_client, updated_column, changed_row, rotate_client_api_key,
}

abbrev pub stamp_client : Time → ClientApplication → ClientApplication
stamp_client t row = record row { updated_at = t }

with_id-Selects : (id : ℕ) → Selects (λ (row : ClientApplication). row.id) id (λ row. row.id == id)
with_id-Selects id row h = ground arith

module _ {W : Type 0} (db : Database W) (at : W → ℕ → Option ClientApplication)
    (law : IsKeyed db.clients (λ row. row.id) stamp_client at) where
  first_client-some :
      (id : ℕ) (w : W) {client : ClientApplication}
      → (first_client db id w).0 ≡ ok (some client)
      → at w id ≡ some client
  first_client-some id w {client} h =
      elim (Result-cases ((db.clients.first (λ row. row.id == id) w).0)) [
        | inr (e, failed) ↦ cc
        | inl (found, here) ↦
            let same : ok found ≡ ok (some client) = rw here at h in
            let answered : (db.clients.first (λ row. row.id == id) w).0 ≡ ok (some client) =
              here ∙ same in
            (first-some db.clients (λ row. row.id) stamp_client at law id _ (with_id-Selects id) w
              answered).0
      ]

  first_client-same : (id : ℕ) (w : W) → at ((first_client db id w).1) id ≡ at w id
  first_client-same id w = law.first_same (λ row. row.id == id) w id

  the_client-ok :
      (id : ℕ) (w : W) {client : ClientApplication}
      → (the_client db id w).0 ≡ ok client
      → (at w id ≡ some client) × (at ((the_client db id w).1) id ≡ at w id)
  the_client-ok id w {client} h = elim (Result-cases ((first_client db id w).0)) [
    | inr (e, failed) ↦ let refused : err e ≡ ok client = rw failed at h in cc
    | inl (none, missing) ↦ let refused : err _ ≡ ok client = rw missing at h in cc
    | inl (some row, here) ↦
        let same : ok row ≡ ok client = rw here at h in
        let stands = first_client-some id w here in (stands ∙ cc, rw here (first_client-same id w))
  ]

  -- An update of the row with this id, after which the row is there.
  updates-then :
      (id : ℕ) (change : ClientApplication → ClientApplication) (w : W) (n : ℕ)
      {client : ClientApplication}
      → Keeps (λ row. row.id) change
      → (db.clients.updates (λ row. row.id == id) change w).0 ≡ ok n
      → at ((db.clients.updates (λ row. row.id == id) change w).1) id ≡ some client
      → (row : ClientApplication) × (t : Time) × (at w id ≡ some row)
        × (client ≡ stamp_client t (change row))
  updates-then id change w n {client} keeps answered after =
      let (_, (t, changed)) =
        law.updates_row id (λ row. row.id == id) change w n (with_id-Selects id) keeps answered in
      elim (Option-cases (at w id)) [
        | inl gone ↦
            let still : none ≡ some client =
              sym (
                changed
                ∙ ap (changed_if (λ row. row.id == id) (λ r. stamp_client t (change r))) gone)
              ∙ after in
            cc
        | inr (row, here) ↦
            let key = law.keyed w id row here in
            let fits : (row.id == id) ≡ true = ground arith in
            let now : some (stamp_client t (change row)) ≡ some client =
              sym (
                changed
                ∙ ap (changed_if (λ r. r.id == id) (λ r. stamp_client t (change r))) here
                ∙ (rw fits refl))
              ∙ after in
            (row, t, here, cc)
      ]

  -- The row that a changed column leaves, and the one before.
  pub updated_column-ok :
      (message : String) (id : ℕ) (change : ClientApplication → ClientApplication) (w : W)
      {client : ClientApplication}
      → Keeps (λ row. row.id) change
      → (updated_column (some db) message id change w).0 ≡ ok client
      → (row : ClientApplication) × (t : Time) × (at w id ≡ some row)
        × (client ≡ stamp_client t (change row))
        × (at ((updated_column (some db) message id change w).1) id ≡ some client)
  unfolding updated_column
  updated_column-ok message id change w {client} keeps h =
      let call = db.clients.updates (λ row. row.id == id) change w in
      elim (Result-cases (call.0)) [
        | inr (e, failed) ↦ let refused : err _ ≡ ok client = rw failed at h in cc
        | inl (n, answered) ↦
            let read : (the_client db id (call.1)).0 ≡ ok client = rw answered at h in
            let (stands, stays) = the_client-ok id (call.1) read in
            let (row, t, here, result) = updates-then id change w n keeps answered stands in
            (row, t, here, result, rw answered (stays ∙ stands))
      ]

  changed_row-ok :
      (message : String) (id : ℕ) (change : ClientApplication → ClientApplication) (w : W)
      {client : ClientApplication}
      → Keeps (λ row. row.id) change
      → (changed_row db message id change w).0 ≡ ok client
      → (row : ClientApplication) × (t : Time) × (at w id ≡ some row)
        × (client ≡ stamp_client t (change row))
        × (at ((changed_row db message id change w).1) id ≡ some client)
  unfolding changed_row
  changed_row-ok message id change w {client} keeps h =
      elim (Result-cases ((the_client db id w).0)) [
        | inr (e, failed) ↦ let refused : err e ≡ ok client = rw failed at h in cc
        | inl (locked, there) ↦
            let v = (the_client db id w).1 in
            let (_, kept) = the_client-ok id w there in
            let call = db.clients.updates (λ row. row.id == id) change v in
            elim (Result-cases (call.0)) [
              | inr (e, failed) ↦ let refused : err _ ≡ ok client = rw (there, failed) at h in cc
              | inl (n, answered) ↦ elim (Result-cases ((first_client db id (call.1)).0)) [
                | inr (e, failed) ↦
                    let refused : err e ≡ ok client = rw (there, answered, failed) at h in cc
                | inl (none, missing) ↦
                    let refused : err _ ≡ ok client = rw (there, answered, missing) at h in cc
                | inl (some found, read) ↦
                    let same : ok found ≡ ok client = rw (there, answered, read) at h in
                    let stands : at (call.1) id ≡ some client =
                      first_client-some id (call.1) read ∙ cc in
                    let (row, t, here, result) = updates-then id change v n keeps answered stands in
                    (
                      row,
                      t,
                      sym kept ∙ here,
                      result,
                      rw (there, answered, read) (first_client-same id (call.1) ∙ stands),
                    )
              ]
            ]
      ]

  -- A rotation that succeeds replaces the hash and the prefix of the key of a client that is there,
  -- and returns the client as it stands afterwards; all else of it stays.
  pub rotate_client_api_key-ok :
      (isolated : IsTransactional db at) (id : ℕ) (hash prefix : String) (w : W)
      {client : ClientApplication}
      → (rotate_client_api_key (some db) id hash prefix w).0 ≡ ok client
      → (row : ClientApplication) × (t : Time) × (at w id ≡ some row)
        × (client ≡ stamp_client t (record row { api_key_hash = hash; api_key_prefix = prefix }))
        × (at ((rotate_client_api_key (some db) id hash prefix w).1) id ≡ some client)
  unfolding rotate_client_api_key
  rotate_client_api_key-ok isolated id hash prefix w {client} h =
      let change =
        λ (row : ClientApplication). record row { api_key_hash = hash; api_key_prefix = prefix } in
      let body = changed_row db "failed to rotate client api key" id change in
      let (v, made, committed, began, done) = transaction-ok db body w h in
      let (row, t, here, result, stands) =
        changed_row-ok "failed to rotate client api key" id change v (λ r. refl) made in
      (
        row,
        t,
        sym (isolated.begun w id) ∙ ap (λ u. at u id) (sym began) ∙ here,
        result,
        ap (λ u. at u id) committed ∙ isolated.committed _ id done ∙ stands,
      )
