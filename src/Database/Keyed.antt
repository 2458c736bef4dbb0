-- ===== src/Database/Keyed.antt =====
-- What GORM and MySQL document of a table with a primary key, for queries of one row.
--
-- `at w k` is the row with the id `k` in the world `w`; `stamp t` sets the time of update, which
-- `Save` and `Updates` do by themselves.
use hate_sentry.Base.{ℕ, Bool, true, false, Option, none, some, ◌≡◌, if◌then◌else◌}
use hate_sentry.Errors.{ok}
use hate_sentry.Models.{Time}
use hate_sentry.Database.{Database, Table}

abbrev pub kept_if : {Row : Type 0} → (Row → Bool) → Option Row → Option Row
kept_if p none = none
kept_if p (some row) = if p row then some row else none

abbrev pub changed_if : {Row : Type 0} → (Row → Bool) → (Row → Row) → Option Row → Option Row
changed_if p f none = none
changed_if p f (some row) = if p row then some (f row) else some row

-- How many of no or one row the test holds of.
abbrev pub count_if : {Row : Type 0} → (Row → Bool) → Option Row → ℕ
count_if p none = 0
count_if p (some row) = if p row then 1 else 0

-- The test is about the row with this id only.
abbrev pub Selects : {Row : Type 0} → (Row → ℕ) → ℕ → (Row → Bool) → Type 0
Selects id k p = (row : _) → p row ≡ true → id row ≡ k

-- The change leaves the ids of rows alone.
abbrev pub Keeps : {Row : Type 0} → (Row → ℕ) → (Row → Row) → Type 0
Keeps id f = (row : _) → id (f row) ≡ id row

-- To query one table changes no row of another.
abbrev pub Leaves : {W Row Other : Type 0} → Table W Other → (W → ℕ → Option Row) → Type 0
Leaves table at = (p : _) (w : _) (k : ℕ) → at ((table.first p w).1) k ≡ at w k

pub record IsKeyed {W Row : Type 0} (table : Table W Row) (id : Row → ℕ) (stamp : Time → Row → Row)
    (at : W → ℕ → Option Row) : Type 0 where
  pub keyed : (w : W) (k : ℕ) (row : Row) → at w k ≡ some row → id row ≡ k
  -- A query finds a row that stands in the table and fits, or there is none; it changes no row.
  pub first_found :
      (p : Row → Bool) (w : W) (row : Row)
      → (table.first p w).0 ≡ ok (some row)
      → (at w (id row) ≡ some row) × (p row ≡ true)
  pub first_missing :
      (p : Row → Bool) (w : W) (k : ℕ) (row : Row)
      → (table.first p w).0 ≡ ok none
      → at w k ≡ some row
      → p row ≡ false
  pub first_same : (p : Row → Bool) (w : W) (j : ℕ) → at ((table.first p w).1) j ≡ at w j
  -- An update that succeeds has changed the row if it fits, and counts it.
  pub updates_row :
      (k : ℕ) (p : Row → Bool) (f : Row → Row) (w : W) (n : ℕ)
      → Selects id k p
      → Keeps id f
      → (table.updates p f w).0 ≡ ok n
      → (n ≡ count_if p (at w k))
        × ((t : Time) × (at ((table.updates p f w).1) k
              ≡ changed_if p (λ row. stamp t (f row)) (at w k)))
  -- A saved row stands at its id, with a new time of update.
  pub save_row :
      (row saved : Row) (w : W)
      → (table.save row w).0 ≡ ok saved
      → (t : Time) × (saved ≡ stamp t row) × (at ((table.save row w).1) (id row) ≡ some saved)

-- To begin, and to commit with success, changes no row; to roll back restores the rows.
pub record IsTransactional {W Row : Type 0} (db : Database W) (at : W → ℕ → Option Row)
    : Type 0 where
  pub begun : (w : W) (k : ℕ) → at ((db.begin w).1) k ≡ at w k
  pub committed : (w : W) (k : ℕ) → (db.commit w).0 ≡ ok tt → at ((db.commit w).1) k ≡ at w k
  pub rolled_back : (w v : W) (k : ℕ) → at (db.rollback w v) k ≡ at w k
