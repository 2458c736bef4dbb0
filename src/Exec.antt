-- ===== src/Exec.antt =====
-- Methods that change the outside world and may fail. What was done before an error stays done, so
-- the world comes back beside the error too.
use hate_sentry.Base.{Option, none, some, ◌≡◌, refl, ◌∙◌, inl, inr}
use hate_sentry.Errors.{Error, AppError, Result, ok, err, raised, Result-cases}

abbrev pub Exec : Type 0 → Type 0 → Type 0
Exec W A = W → Result A × W

module _ {W A : Type 0} where
  abbrev pub pure : A → Exec W A
  pure a w = (ok a, w)

  abbrev pub raise : Error → Exec W A
  raise e w = (err e, w)

  abbrev pub lift : Result A → Exec W A
  lift r w = (r, w)

  -- What cannot fail.
  abbrev pub run : (W → A × W) → Exec W A
  run f w = let (a, w') = f w in (ok a, w')

  -- A call whose error the caller looks at.
  abbrev pub attempt : Exec W A → Exec W (Result A)
  attempt m w = let (r, w') = m w in (ok r, w')

  -- A dependency that may be nil.
  abbrev pub require : Option A → AppError → Exec W A
  require none e w = (err (raised e), w)
  require (some a) e w = (ok a, w)

abbrev pub act : {W : Type 0} → (W → W) → Exec W (Unit {0})
act f w = (ok tt, f w)

module _ {W A B : Type 0} where
  abbrev pub continue : Result A → (A → Exec W B) → Exec W B
  continue (ok a) f w = f a w
  continue (err e) f w = (err e, w)

  infixl 5 ◌>>=◌ ◌>>◌
  abbrev pub ◌>>=◌ : Exec W A → (A → Exec W B) → Exec W B
  ◌>>=◌ m f w = let (r, w') = m w in continue r f w'

  abbrev pub ◌>>◌ : Exec W A → Exec W B → Exec W B
  m >> k = m >>= λ _. k

-- Inversion of a successful bind.
pub >>=-ok :
    {W A B : Type 0} (m : Exec W A) (f : A → Exec W B) (w : W) {b : B}
    → ((m >>= f) w).0 ≡ ok b
    → (a : A) × ((m w).0 ≡ ok a) × ((f a ((m w).1)).0 ≡ ok b)
>>=-ok m f w h = elim (Result-cases ((m w).0)) [ inl (a, e) ↦ (a, e, rw e at h) | inr (x, e) ↦ cc ]

-- The same, with the world that the bind leaves.
pub >>=-ran :
    {W A B : Type 0} (m : Exec W A) (f : A → Exec W B) (w : W) {b : B}
    → ((m >>= f) w).0 ≡ ok b
    → (a : A) × ((m w).0 ≡ ok a) × ((m >>= f) w ≡ f a ((m w).1))
>>=-ran m f w h = elim (Result-cases ((m w).0)) [ inl (a, e) ↦ (a, e, rw e refl) | inr (x, e) ↦ cc ]

-- A call leaves a part of the world as it is, whether it fails or not.
abbrev pub Preserves {ℓ} : {W A : Type 0} {V : Type ℓ} → (W → V) → Exec W A → Type ℓ
Preserves view m = (w : _) → view ((m w).1) ≡ view w

pub >>=-Preserves {ℓ} :
    {W A B : Type 0} {V : Type ℓ} (view : W → V) (m : Exec W A) (f : A → Exec W B)
    → Preserves view m
    → ((a : A) → Preserves view (f a))
    → Preserves view (m >>= f)
>>=-Preserves view m f first then w = elim (Result-cases ((m w).0)) [
  | inl (a, e) ↦ rw e (then a ((m w).1) ∙ first w)
  | inr (x, e) ↦ rw e (first w)
]

pub lift-Preserves {ℓ} :
    {W A B : Type 0} {V : Type ℓ} (view : W → V) (r : Result A) (f : A → Exec W B)
    → ((a : A) → Preserves view (f a))
    → Preserves view (lift r >>= f)
lift-Preserves view (ok a) f then w = then a w
lift-Preserves view (err e) f then w = refl
