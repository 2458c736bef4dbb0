-- ===== src/Database.antt =====
-- What the repositories use of GORM and of the database behind it: an interface, with no code of
-- its own.
--
-- A query is what the source's conditions say of a row: the text of each `Where` is translated to
-- a test. A row that is not there (`gorm.ErrRecordNotFound`) is `none`. Every method is one step of
-- the world, so a transaction that locks its row first is a step too.
pub mod Keyed
pub mod Rows
pub mod Transactions
pub mod Listed
use hate_sentry.Base.{ℕ, String, Bool, false, Option, none, some, List}
use hate_sentry.Errors.{Error, Result, ok, err, wrapped_database_error, configuration_error}
use hate_sentry.Exec.{Exec, pure, attempt, require, continue, ◌>>=◌, ◌>>◌}
use hate_sentry.Models.{
  User, SystemLock, ClientApplication, ModerationRequest, ModerationResult, ReviewCase,
  WebhookDelivery,
}

pub record Query (Row : Type 0) : Type 0 where
  -- `Where`.
  pub matches : Row → Bool
  -- `Order`: whether the first row comes before the second one.
  pub before : Row → Row → Bool
  -- `Limit`.
  pub limit : Option ℕ

pub record Table (W Row : Type 0) : Type 0 where
  -- `Create`: the row comes back with its id and times.
  pub create : Row → Exec W Row
  -- `Where(…).First(&row)`: the first match by primary key.
  pub first : (Row → Bool) → Exec W (Option Row)
  -- `Where(…).Order(…).First(&row)`.
  pub first_by : Query Row → Exec W (Option Row)
  -- `Where(…).Order(…).Limit(…).Find(&rows)`.
  pub find : Query Row → Exec W (List Row)
  -- `Save`: the row with this id is replaced, and the row comes back with its time of update.
  pub save : Row → Exec W Row
  -- `Where(…).Updates(…)`, with the number of rows that it changed.
  pub updates : (Row → Bool) → (Row → Row) → Exec W ℕ
  -- `Where(…).Count(&n)`.
  pub count : (Row → Bool) → Exec W ℕ

pub record Database (W : Type 0) : Type 0 where
  pub users : Table W User
  -- `Clauses(clause.OnConflict{DoNothing: true}).Create(&lock)`.
  pub ensure_lock : SystemLock → Exec W (Unit {0})
  -- `Clauses(clause.Locking{Strength: "UPDATE"}).Where(…).First(&lock)`.
  pub hold_lock : (SystemLock → Bool) → Exec W (Option SystemLock)
  pub requests : Table W ModerationRequest
  pub results : Table W ModerationResult
  pub review_cases : Table W ReviewCase
  pub clients : Table W ClientApplication
  pub deliveries : Table W WebhookDelivery
  -- Results joined with the requests of the same request id, of which the test holds.
  pub find_results_joined :
      Query ModerationResult → (ModerationRequest → Bool) → Exec W (List ModerationResult)
  pub begin : Exec W (Unit {0})
  pub commit : Exec W (Unit {0})
  -- Back from the second world to the tables of the first.
  pub rollback : W → W → W

-- No `Order`.
abbrev pub no_order : {Row : Type 0} → Row → Row → Bool
no_order a b = false

abbrev pub settle : {W A : Type 0} → Database W → W → A → Result (Unit {0}) → Exec W A
settle db start a (ok done) = pure a
settle db start a (err e) = λ w. (err e, db.rollback start w)

abbrev pub finish : {W A : Type 0} → Database W → W → Result A → Exec W A
finish db start (ok a) = do r ← attempt db.commit; settle db start a r
finish db start (err e) = λ w. (err e, db.rollback start w)

-- `db.Transaction`: the error of the body comes back as it is. GORM rolls back after an error of the
-- body, and after one of the commit.
abbrev pub transaction : {W A : Type 0} → Database W → Exec W A → Exec W A
transaction db body start = (do db.begin; r ← attempt body; finish db start r) start

-- `apperrors.DatabaseError(err, message)` of an error that is not nil.
abbrev pub non_nil : Error → Option Error → Error
non_nil e none = e
non_nil e (some wrapped) = wrapped

unfoldable pub database_error_of : Error → String → Error
unfolding wrapped_database_error
database_error_of e message = non_nil e (wrapped_database_error (some e) message)

-- A call whose error is reported as one of the database.
abbrev pub reported : {A : Type 0} → String → Result A → Result A
reported message (ok a) = ok a
reported message (err e) = err (database_error_of e message)

abbrev pub report : {W A : Type 0} → String → Exec W A → Exec W A
report message m w = let (r, w') = m w in (reported message r, w')
