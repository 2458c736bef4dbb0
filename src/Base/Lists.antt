-- ===== src/Base/Lists.antt =====
-- Lists over the native numbers, and predicates on their members.
use Prim.Native.Nat.{ℕ, suc, ◌+◌}
use Prim.Native.String.{String}
use mathlib.Core.Path.{◌≡◌, refl}
use mathlib.Core.Logic.{◌⊎◌, inl, inr}
use mathlib.Core.Bool.{Bool, false, ◌||◌}
use mathlib.Core.Option.{Option, none, some}
use mathlib.Core.List.{List, [], ◌∷◌, ◌++◌}
use native.Mathlib.Omega.{arith}
use text.Mathlib.TextEquality.{eq_iff}
use hate_sentry.Base.Tests.{str_eq, if◌then◌else◌}

module _ {ℓ} {A : Type ℓ} where
  abbrev pub length : List A → ℕ
  length [] = 0
  length (x ∷ xs) = suc (length xs)

  abbrev pub All {κ} : (A → Type κ) → List A → Type κ
  All P [] = Unit
  All P (x ∷ xs) = P x × All P xs

  pub length-append : (xs ys : List A) → length (xs ++ ys) ≡ length xs + length ys
  length-append [] ys = omega arith
  length-append (x ∷ xs) ys = omega (arith, length-append xs ys)

  pub All-append {κ} :
      (P : A → Type κ) (xs ys : List A) (front : All P xs) (back : All P ys) → All P (xs ++ ys)
  All-append P [] ys front back = back
  All-append P (x ∷ xs) ys (first, front) back = (first, All-append P xs ys front back)

-- Membership of a text in a list, as the program's `seen` maps and label sets test it.
abbrev pub contains : String → List String → Bool
contains s [] = false
contains s (x ∷ xs) = (str_eq x s) || contains s xs

-- Go's map with text keys, as an association list without repeated keys.
module _ {ℓ} {V : Type ℓ} where
  unfoldable pub lookup : String → List (String × V) → Option V
  lookup k [] = none
  lookup k ((j, v) ∷ m) = if str_eq j k then some v else lookup k m

  unfoldable pub insert : String → V → List (String × V) → List (String × V)
  insert key value [] = (key, value) ∷ []
  insert key value (entry ∷ rest) =
      if str_eq entry.0 key then (key, value) ∷ rest else entry ∷ insert key value rest

  pub lookup-insert :
      (k other : String) (value : V) (table : List (String × V))
      → lookup other (insert k value table)
        ≡ (if str_eq k other then some value else lookup other table)
  unfolding lookup insert
  lookup-insert k other value [] = refl
  lookup-insert k other value (entry ∷ rest) =
      let later = lookup-insert k other value rest in
      ground (arith, eq_iff k other, eq_iff entry.0 k, eq_iff entry.0 other, later)

-- Membership as a choice of a place.
abbrev pub Occurs : {A : Type 0} → A → List A → Type 0
Occurs a [] = ⊥
Occurs a (x ∷ xs) = (a ≡ x) ⊎ Occurs a xs

pub All-Occurs : {A : Type 0} (P : A → Type 0) (xs : List A) {a : A} → All P xs → Occurs a xs → P a
All-Occurs P [] h m = absurd m
All-Occurs P (x ∷ xs) h (inl e) = rw e h.0
All-Occurs P (x ∷ xs) h (inr m) = All-Occurs P xs h.1 m

-- No text twice.
abbrev pub Distinct : List String → Type 0
Distinct [] = Unit
Distinct (x ∷ xs) = (contains x xs ≡ false) × Distinct xs
