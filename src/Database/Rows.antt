-- ===== src/Database/Rows.antt =====
-- What a query of one row says of the row, in a table that is keyed.
use hate_sentry.Base.{
  ℕ, Bool, true, false, Option, none, some, ◌≡◌, refl, ap, sym, ◌∙◌, ◌⊎◌, inl, inr, Bool-cases,
  arith,
}
use hate_sentry.Errors.{Error, ok, err, Result-cases}
use hate_sentry.Models.{Time}
use hate_sentry.Database.{Table}
use hate_sentry.Database.Keyed.{IsKeyed, Selects, Keeps, changed_if, count_if}

module _ {Row : Type 0} (p : Row → Bool) where
  count_if-one :
      (found : Option Row)
      → count_if p found ≡ 1
      → (row : Row) × (found ≡ some row) × (p row ≡ true)
  count_if-one none h = let absurd : 0 ≡ 1 = h in ground arith
  count_if-one (some row) h = elim (Bool-cases (p row)) [
    | inl fits ↦ (row, refl, fits)
    | inr other ↦ let uncounted : 0 ≡ 1 = rw other at h in ground arith
  ]

  count_if-none : (row : Row) → p row ≡ false → count_if p (some row) ≡ 0
  count_if-none row h = rw h refl

module _ {W Row : Type 0} (table : Table W Row) (id : Row → ℕ) (stamp : Time → Row → Row)
    (at : W → ℕ → Option Row) (law : IsKeyed table id stamp at) (k : ℕ) (p : Row → Bool)
    (selects : Selects id k p) (w : W) where
  -- A row that a query finds is the one with this id, and fits.
  pub first-some :
      {row : Row} → (table.first p w).0 ≡ ok (some row) → (at w k ≡ some row) × (p row ≡ true)
  first-some {row} h =
      let (here, fits) = law.first_found p w row h in
      (ap (at w) (sym (selects row fits)) ∙ here, fits)

  -- An update of one row has found the row that fits, and has changed it.
  pub updates-one :
      (f : Row → Row)
      → Keeps id f
      → (table.updates p f w).0 ≡ ok 1
      → (row : Row) × (t : Time) × (at w k ≡ some row)
        × (p row ≡ true)
        × (at ((table.updates p f w).1) k ≡ some (stamp t (f row)))
  updates-one f keeps h =
      let (counted, (t, changed)) = law.updates_row k p f w 1 selects keeps h in
      let (row, here, fits) = count_if-one p (at w k) (sym counted) in
      (row, t, here, fits, changed ∙ ap (changed_if p (λ r. stamp t (f r))) here ∙ (rw fits refl))

  -- An update that changes another number of rows leaves a row that does not fit.
  pub updates-other :
      (f : Row → Row) (n : ℕ) (row : Row)
      → at w k ≡ some row
      → p row ≡ false
      → Keeps id f
      → (table.updates p f w).0 ≡ ok n
      → (n ≡ 0) × (at ((table.updates p f w).1) k ≡ some row)
  updates-other f n row here other keeps h =
      let (counted, (t, changed)) = law.updates_row k p f w n selects keeps h in
      (
        counted ∙ ap (count_if p) here ∙ count_if-none p row other,
        changed ∙ ap (changed_if p (λ r. stamp t (f r))) here ∙ (rw other refl),
      )

  -- A query of a row that stands there and fits fails, or finds it.
  pub first-here :
      (row : Row)
      → at w k ≡ some row
      → p row ≡ true
      → ((e : Error) × ((table.first p w).0 ≡ err e)) ⊎ ((table.first p w).0 ≡ ok (some row))
  first-here row here fits = elim (Result-cases ((table.first p w).0)) [
    | inr (e, failed) ↦ inl (e, failed)
    | inl (none, missing) ↦ let unfit = law.first_missing p w k row missing here in cc
    | inl (some other, found) ↦
        let (there, _) = first-some found in
        let same : other ≡ row = cc in inr (found ∙ ap (λ r. ok (some r)) same)
  ]
