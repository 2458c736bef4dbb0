-- ===== src/Database/Transactions.antt =====
-- What a transaction returns, and where it leaves the world.
use hate_sentry.Base.{◌≡◌, refl, ◌∙◌, inl, inr}
use hate_sentry.Errors.{Error, ok, err, Result-cases}
use hate_sentry.Exec.{Exec}
use hate_sentry.Database.{Database, transaction}

module _ {W A : Type 0} (db : Database W) (body : Exec W A) (w : W) where
  -- A transaction that succeeds has run its body to the end and committed.
  pub transaction-ok :
      {a : A}
      → (transaction db body w).0 ≡ ok a
      → (v : W) × ((body v).0 ≡ ok a)
        × ((transaction db body w).1 ≡ (db.commit ((body v).1)).1)
        × (v ≡ (db.begin w).1)
        × ((db.commit ((body v).1)).0 ≡ ok tt)
  transaction-ok {a} h = elim (Result-cases ((db.begin w).0)) [
    | inr (e, b) ↦ cc
    | inl (_, b) ↦ elim (Result-cases ((body ((db.begin w).1)).0)) [
      | inr (e, r) ↦ let failed : err e ≡ ok a = rw (b, r) at h in cc
      | inl (a', r) ↦ elim (Result-cases ((db.commit ((body ((db.begin w).1)).1)).0)) [
        | inr (e, c) ↦ let failed : err e ≡ ok a = rw (b, r, c) at h in cc
        | inl (_, c) ↦ ((db.begin w).1, r ∙ (rw (b, r, c) at h), rw (b, r, c) refl, refl, c)
      ]
    ]
  ]

  -- Where the body fails, its error comes back and the tables are those before.
  pub transaction-err :
      {e : Error}
      → (db.begin w).0 ≡ ok tt
      → (body ((db.begin w).1)).0 ≡ err e
      → (transaction db body w ≡ (err e, db.rollback w ((body ((db.begin w).1)).1)))
  transaction-err b r = rw (b, r) refl

  -- A transaction that cannot begin runs nothing.
  pub transaction-begin-err :
      {e : Error} → (db.begin w).0 ≡ err e → transaction db body w ≡ (err e, (db.begin w).1)
  transaction-begin-err b = rw b refl
