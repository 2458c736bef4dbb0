-- ===== src/Database/Listed.antt =====
-- What GORM and MySQL document of a table, as the list of its rows, the newest first.
--
-- `rows w` is the table in the world `w`; `Made row made` relates a row to what `Create` makes of
-- it; `stamp t` sets the time of update, which `Updates` does by itself.
use hate_sentry.Base.{
  ℕ, suc, Bool, true, false, none, some, List, [], ◌∷◌, map, ◌≡◌, All, Occurs, if◌then◌else◌,
  length, refl, ap, inl, inr,
}
use hate_sentry.Errors.{Error, ok, err, Result-cases}
use hate_sentry.Models.{Time}
use hate_sentry.Exec.{Exec}
use hate_sentry.Database.{Database, Table, transaction}

module _ {Row : Type 0} where
  abbrev pub count_of : (Row → Bool) → List Row → ℕ
  count_of p [] = 0
  count_of p (row ∷ rows) = let n = count_of p rows in if p row then suc n else n

  abbrev pub change : (Row → Bool) → (Row → Row) → Row → Row
  change p f row = if p row then f row else row

  pub count_of-all : (rows : List Row) → count_of (λ row. true) rows ≡ length rows
  count_of-all [] = refl
  count_of-all (row ∷ rows) = ap suc (count_of-all rows)

pub record IsListed {W Row : Type 0} (table : Table W Row) (Made : Row → Row → Type 0)
    (stamp : Time → Row → Row) (rows : W → List Row) : Type 0 where
  -- A row that is created is the newest.
  pub create_row :
      (row made : Row) (w : W)
      → (table.create row w).0 ≡ ok made
      → Made row made × (rows ((table.create row w).1) ≡ made ∷ rows w)
  -- A query finds a row of the table that fits, or there is none; it changes nothing.
  pub first_found :
      (p : Row → Bool) (w : W) (row : Row)
      → (table.first p w).0 ≡ ok (some row)
      → Occurs row (rows w) × (p row ≡ true)
  pub first_missing :
      (p : Row → Bool) (w : W) → (table.first p w).0 ≡ ok none → All (λ row. p row ≡ false) (rows w)
  pub first_same : (p : Row → Bool) (w : W) → rows ((table.first p w).1) ≡ rows w
  pub count_rows :
      (p : Row → Bool) (w : W) (n : ℕ) → (table.count p w).0 ≡ ok n → n ≡ count_of p (rows w)
  pub count_same : (p : Row → Bool) (w : W) → rows ((table.count p w).1) ≡ rows w
  -- An update changes the rows that fit, or it fails and changes nothing.
  pub updates_rows :
      (p : Row → Bool) (f : Row → Row) (w : W) (n : ℕ)
      → (table.updates p f w).0 ≡ ok n
      → (t : Time) × (rows ((table.updates p f w).1)
          ≡ map (change p (λ row. stamp t (f row))) (rows w))
  pub updates_failed :
      (p : Row → Bool) (f : Row → Row) (w : W) (e : Error)
      → (table.updates p f w).0 ≡ err e
      → rows ((table.updates p f w).1) ≡ rows w

-- To begin, and to commit with success, changes no row; to roll back restores the rows.
pub record IsAtomic {W Row : Type 0} (db : Database W) (rows : W → List Row) : Type 0 where
  pub begun : (w : W) → rows ((db.begin w).1) ≡ rows w
  pub committed : (w : W) → (db.commit w).0 ≡ ok tt → rows ((db.commit w).1) ≡ rows w
  pub rolled_back : (w v : W) → rows (db.rollback w v) ≡ rows w

-- A transaction that fails changes no row.
pub transaction-atomic :
    {W A Row : Type 0} (db : Database W) (rows : W → List Row) (law : IsAtomic db rows)
    (body : Exec W A) (w : W) {e : Error}
    → (transaction db body w).0 ≡ err e
    → rows ((transaction db body w).1) ≡ rows w
transaction-atomic db rows law body w {e} h = elim (Result-cases ((db.begin w).0)) [
  | inr (x, b) ↦ rw b (law.begun w)
  | inl (_, b) ↦ elim (Result-cases ((body ((db.begin w).1)).0)) [
    | inr (x, r) ↦ rw (b, r) (law.rolled_back w ((body ((db.begin w).1)).1))
    | inl (a, r) ↦ elim (Result-cases ((db.commit ((body ((db.begin w).1)).1)).0)) [
      | inr (x, c) ↦ rw (b, r, c) (law.rolled_back w ((db.commit ((body ((db.begin w).1)).1)).1))
      | inl (_, c) ↦ let passed : ok a ≡ err e = rw (b, r, c) at h in cc
    ]
  ]
]
