-- ===== src/Moderation/Repository/Deliveries/Claimed.antt =====
-- internal/moderation/repository.go: a delivery is claimed by one worker at a time.
use hate_sentry.Base.{
  ℕ, ◌+◌, ◌-◌, ◌≤◌, ◌≡◌, ◌≢◌, refl, ap, ◌∙◌, ◌⊎◌, inl, inr, String, true, false, ◌==◌, ltb,
  Bool-cases, Option, none, some, arith,
}
use hate_sentry.Errors.{Error, ok, err, Result-cases, raised, conflict_error}
use hate_sentry.Models.{Time, WebhookDelivery}
use hate_sentry.Database.{Database, database_error_of}
use hate_sentry.Database.Keyed.{IsKeyed, Selects}
use hate_sentry.Database.Rows.{first-some, first-here, updates-one, updates-other}
use hate_sentry.Moderation.Delivery.{is_webhook_retry_conflict}
use hate_sentry.Moderation.Retry.{webhook_retry_lease}
use hate_sentry.Moderation.Repository.Deliveries.{
  retryable_before, claimable, claimed, get_webhook_delivery, claim_failed_webhook_delivery,
  claim_refused,
}

abbrev pub stamp_delivery : Time → WebhookDelivery → WebhookDelivery
stamp_delivery t row = record row { updated_at = t }

claimable-Selects :
    (id max_attempts : ℕ) (t : Time)
    → Selects (λ (row : WebhookDelivery). row.id) id (claimable id max_attempts t)
unfolding claimable
claimable-Selects id max_attempts t row h = ground arith

with_id-Selects : (id : ℕ) → Selects (λ (row : WebhookDelivery). row.id) id (λ row. row.id == id)
with_id-Selects id row h = ground arith

-- A claimed row cannot be claimed again while the lease lasts.
claimable-claimed :
    (id max_attempts : ℕ) (now later : Time) (row : WebhookDelivery) (t : Time)
    → later ≤ now + webhook_retry_lease
    → claimable id max_attempts later (stamp_delivery t (claimed now row)) ≡ false
unfolding claimable claimed retryable_before
claimable-claimed id max_attempts now later row t h =
    let late : ltb now (later - webhook_retry_lease) ≡ false = ground arith in
    rw late (ground arith)

module _ {W : Type 0} (db : Database W) (at : W → ℕ → Option WebhookDelivery)
    (law : IsKeyed db.deliveries (λ row. row.id) stamp_delivery at) where
  -- A read returns the row with this id.
  pub get_webhook_delivery-ok :
      (id : ℕ) (w : W) {delivery : WebhookDelivery}
      → (get_webhook_delivery (some db) id w).0 ≡ ok delivery
      → at w id ≡ some delivery
  unfolding get_webhook_delivery
  get_webhook_delivery-ok id w {delivery} h =
      let found = (db.deliveries.first (λ row. row.id == id) w).0 in
      elim (Result-cases found) [
        | inr (e, failed) ↦ cc
        | inl (none, missing) ↦ cc
        | inl (some row, here) ↦
            let same : ok row ≡ ok delivery = rw here at h in
            let (stands, _) =
              first-some db.deliveries (λ row. row.id) stamp_delivery at law id _
                (with_id-Selects id) w here in
            cc
      ]

  -- The error of a claim that did not change one row is a conflict, or one of the database.
  claim_refused-err :
      (id : ℕ) (row : WebhookDelivery) (w : W)
      → at w id ≡ some row
      → (e : Error) × ((claim_refused db id w).0 ≡ err e)
        × ((is_webhook_retry_conflict e ≡ true)
            ⊎ ((x : Error) × (message : String) × (e ≡ database_error_of x message)))
  unfolding is_webhook_retry_conflict conflict_error
  claim_refused-err id row w here =
      let same = law.keyed w id row here in
      elim (first-here db.deliveries (λ r. r.id) stamp_delivery at law id _ (with_id-Selects id) w
        row here (ground arith)) [
          | inl (e, failed) ↦ (
            database_error_of e "failed to retrieve webhook delivery",
            rw failed refl,
            inr (e, _, refl),
          )
          | inr found ↦
              (raised (conflict_error "Webhook delivery is not failed"), rw found refl, inl refl)
        ]

  get_webhook_delivery-same :
      (id : ℕ) (w : W) → at ((get_webhook_delivery (some db) id w).1) id ≡ at w id
  unfolding get_webhook_delivery
  get_webhook_delivery-same id w =
      let found = (db.deliveries.first (λ row. row.id == id) w).0 in
      let same = law.first_same (λ row. row.id == id) w id in
      elim (Result-cases found) [
        | inr (e, failed) ↦ rw failed same
        | inl (row, here) ↦ rw here same
      ]

  claim_refused-ok :
      (id : ℕ) (w : W) {delivery : WebhookDelivery} → (claim_refused db id w).0 ≢ ok delivery
  claim_refused-ok id w h = elim (Result-cases ((db.deliveries.first (λ row. row.id == id) w).0)) [
    | inr (e, failed) ↦ cc
    | inl (none, missing) ↦ cc
    | inl (some row, here) ↦ cc
  ]

  -- A claim that returns a delivery found a row with this id that may be claimed. The delivery that
  -- it returns stands in the table afterwards, and is that row as one more attempt of this time:
  -- retrying, counted, with no status and no error of an earlier attempt. The table is keyed.
  pub claim_failed_webhook_delivery-ok :
      (id max_attempts : ℕ) (t : Time) (w : W) {delivery : WebhookDelivery}
      → (claim_failed_webhook_delivery (some db) id max_attempts t w).0 ≡ ok delivery
      → (row : WebhookDelivery) × (updated : Time) × (at w id ≡ some row)
        × (claimable id max_attempts t row ≡ true)
        × (delivery ≡ stamp_delivery updated (claimed t row))
        × (at ((claim_failed_webhook_delivery (some db) id max_attempts t w).1) id ≡ some delivery)
  unfolding claim_failed_webhook_delivery
  claim_failed_webhook_delivery-ok id max_attempts t w {delivery} h =
      let change = db.deliveries.updates (claimable id max_attempts t) (claimed t) w in
      elim (Result-cases (change.0)) [
        | inr (e, failed) ↦ cc
        | inl (n, answered) ↦ elim (Bool-cases (n == 1)) [
          | inr other ↦
              let refused : (claim_refused db id (change.1)).0 ≡ ok delivery =
                rw (answered, other) at h in
              elim (claim_refused-ok id (change.1) refused) [ ]
          | inl one ↦
              let counted : change.0 ≡ ok 1 = answered ∙ ap ok (ground arith) in
              let read : (get_webhook_delivery (some db) id (change.1)).0 ≡ ok delivery =
                rw (answered, one) at h in
              let (row, updated, here, fits, after) =
                updates-one db.deliveries (λ r. r.id) stamp_delivery at law id _
                  (claimable-Selects id max_attempts t) w (claimed t) (λ r. refl) counted in
              let stands = get_webhook_delivery-ok id (change.1) read in
              let stays = get_webhook_delivery-same id (change.1) in
              (row, updated, here, fits, cc, rw (answered, one) (stays ∙ stands))
        ]
      ]

  -- After a claim at the time `now` has returned a delivery, and as long as that row stands
  -- unchanged, no other claim of it succeeds at a time up to the lease after `now`: its error is
  -- a conflict, or one of the database. The table is keyed.
  pub claim_failed_webhook_delivery-excludes :
      (id max_attempts other_attempts : ℕ) (now later : Time) (w v : W) {delivery : WebhookDelivery}
      → (claim_failed_webhook_delivery (some db) id max_attempts now w).0 ≡ ok delivery
      → at v id ≡ some delivery
      → later ≤ now + webhook_retry_lease
      → (e : Error) × ((claim_failed_webhook_delivery (some db) id other_attempts later v).0
          ≡ err e)
        × ((is_webhook_retry_conflict e ≡ true)
            ⊎ ((x : Error) × (message : String) × (e ≡ database_error_of x message)))
  unfolding claim_failed_webhook_delivery is_webhook_retry_conflict
  claim_failed_webhook_delivery-excludes id max_attempts other_attempts now later w v {delivery} h
        here lease =
      let (row, updated, _, _, is_claimed, _) =
        claim_failed_webhook_delivery-ok id max_attempts now w h in
      let closed =
        ap (claimable id other_attempts later) is_claimed
        ∙ claimable-claimed id other_attempts now later row updated lease in
      let change = db.deliveries.updates (claimable id other_attempts later) (claimed later) v in
      elim (Result-cases (change.0)) [
        | inr (e, failed) ↦ (
          database_error_of e "failed to claim webhook delivery",
          rw failed refl,
          inr (e, _, refl),
        )
        | inl (n, answered) ↦
            let (none_claimed, stands) =
              updates-other db.deliveries (λ r. r.id) stamp_delivery at law id _
                (claimable-Selects id other_attempts later) v (claimed later) n delivery here closed
                (λ r. refl) answered in
            let (e, refused, kind) = claim_refused-err id delivery (change.1) stands in
            (e, rw (answered, none_claimed) refused, kind)
      ]
