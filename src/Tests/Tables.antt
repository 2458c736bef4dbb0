-- ===== src/Tests/Tables.antt =====
-- Tables with at most one row, which keep the laws of keyed tables.
use hate_sentry.Base.{
  ℕ, ◌==◌, ◌≡◌, refl, ap, ◌∙◌, sym, Bool, true, false, Bool-cases, Option, none, some, List, [],
  ◌∷◌, arith, inl, inr, ==_iff,
}
use hate_sentry.Errors.{ok, err, plain_error}
use hate_sentry.Models.{Time}
use hate_sentry.Database.{Table}
use hate_sentry.Database.Keyed.{IsKeyed, Keeps, Selects, kept_if, changed_if, count_if}

abbrev row_list : {Row : Type 0} → Option Row → List Row
row_list none = []
row_list (some row) = row ∷ []

-- A table of one row that never changes.
abbrev pub fixed_table : {W Row : Type 0} → Row → Table W Row
fixed_table row = record {
  create = λ r w. (ok r, w);
  first = λ p w. (ok (kept_if p (some row)), w);
  first_by = λ q w. (ok (kept_if q.matches (some row)), w);
  find = λ q w. (ok (row_list (kept_if q.matches (some row))), w);
  save = λ r w. (err (plain_error "read only"), w);
  updates = λ p f w. (err (plain_error "read only"), w);
  count = λ p w. (ok (count_if p (some row)), w);
}

module _ {Row : Type 0} (id : Row → ℕ) (stamp : Time → Row → Row) where
  -- The world is the row.
  abbrev pub one_table : Table (Option Row) Row
  one_table = record {
    create = λ r w. (ok r, some r);
    first = λ p w. (ok (kept_if p w), w);
    first_by = λ q w. (ok (kept_if q.matches w), w);
    find = λ q w. (ok (row_list (kept_if q.matches w)), w);
    save = λ r w. (ok (stamp 50 r), some (stamp 50 r));
    updates = λ p f w. (ok (count_if p w), changed_if p (λ r. stamp 50 (f r)) w);
    count = λ p w. (ok (count_if p w), w);
  }

  abbrev pub row_at : Option Row → ℕ → Option Row
  row_at w k = kept_if (λ row. id row == k) w

  row_at-id : (w : Option Row) (k : ℕ) (row : Row) → row_at w k ≡ some row → id row ≡ k
  row_at-id none k row h = cc
  row_at-id (some here) k row h = elim (Bool-cases (id here == k)) [
    | inl same ↦
        let kept : some here ≡ some row = rw same at h in
        let equal : here ≡ row = cc in ap id (sym equal) ∙ ground arith
    | inr other ↦ let dropped : none ≡ some row = rw other at h in cc
  ]

  kept_if-row_at :
      (p : Row → Bool) (w : Option Row) (row : Row)
      → kept_if p w ≡ some row
      → (row_at w (id row) ≡ some row) × (p row ≡ true)
  kept_if-row_at p none row h = cc
  kept_if-row_at p (some here) row h = elim (Bool-cases (p here)) [
    | inr other ↦ let dropped : none ≡ some row = rw other at h in cc
    | inl fits ↦
        let kept : some here ≡ some row = rw fits at h in
        let equal : row ≡ here = cc in
        let self : (id here == id here) ≡ true = ground arith in rw equal (rw self refl, fits)
  ]

  kept_if-none :
      (p : Row → Bool) (w : Option Row) (k : ℕ) (row : Row)
      → kept_if p w ≡ none
      → row_at w k ≡ some row
      → p row ≡ false
  kept_if-none p none k row h e = cc
  kept_if-none p (some here) k row h e = elim (Bool-cases (p here)) [
    | inl fits ↦ let kept : some here ≡ none = rw fits at h in cc
    | inr other ↦ elim (Bool-cases (id here == k)) [
      | inl same ↦
          let found : some here ≡ some row = rw same at e in
          let equal : row ≡ here = cc in rw equal other
      | inr away ↦ let absent : none ≡ some row = rw away at e in cc
    ]
  ]

  changed-row_at :
      (p : Row → Bool) (f : Row → Row) (w : Option Row) (k : ℕ)
      → Selects id k p
      → Keeps id f
      → (count_if p w ≡ count_if p (row_at w k))
        × (row_at (changed_if p f w) k ≡ changed_if p f (row_at w k))
  changed-row_at p f none k selects keeps = (refl, refl)
  changed-row_at p f (some row) k selects keeps = elim (Bool-cases (p row)) [
    | inl fits ↦
        let same : (id row == k) ≡ true = (==_iff (id row) k).1 (selects row fits) in
        let then_same : (id (f row) == k) ≡ true =
          (==_iff (id (f row)) k).1 (keeps row ∙ selects row fits) in
        (rw same refl, rw (fits, same, then_same) (rw fits refl))
    | inr other ↦ elim (Bool-cases (id row == k)) [
      | inl same ↦ (rw same refl, rw (other, same) (rw other refl))
      | inr away ↦ (rw (other, away) refl, rw (other, away) refl)
    ]
  ]

  module _ (same_id : (t : Time) (row : Row) → id (stamp t row) ≡ id row) where
    pub one_table-IsKeyed : IsKeyed one_table id stamp row_at
    one_table-IsKeyed = record {
      keyed = row_at-id;
      first_found =
          λ p w row h. let found : kept_if p w ≡ some row = cc in kept_if-row_at p w row found;
      first_missing = λ p w k row h e.
          let none_found : kept_if p w ≡ none = cc in kept_if-none p w k row none_found e;
      first_same = λ p w j. refl;
      updates_row = λ k p f w n selects keeps h.
          let counted : n ≡ count_if p w = cc in
          let stamped : Keeps id (λ r. stamp 50 (f r)) = λ r. same_id 50 (f r) ∙ keeps r in
          let (number, changed) = changed-row_at p (λ r. stamp 50 (f r)) w k selects stamped in
          (counted ∙ number, (50, changed));
      save_row = λ row saved w h.
          let made : saved ≡ stamp 50 row = cc in
          let self : (id (stamp 50 row) == id row) ≡ true =
            (==_iff (id (stamp 50 row)) (id row)).1 (same_id 50 row) in
          (50, made, rw self (ap some (sym made)));
    }
