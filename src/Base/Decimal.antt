-- ===== src/Base/Decimal.antt =====
-- Go's `strconv`: `%d` of `fmt`, `ParseUint(s, 10, 0)` and `Atoi`, on a 64-bit platform.
-- An error of the parsers is `none`: the program only tests that there is one.
use Prim.Native.Nat.{ℕ, zero, suc, ◌+◌, ◌-◌, ◌*◌, ◌/◌, ◌%◌, ◌^◌, ◌≤◌, ◌<◌}
use Prim.Native.Char.{Char, code}
use Prim.Native.String.{String, [], ◌∷◌, ◌++◌}
use mathlib.Core.Path.{◌≡◌, refl, ap, ◌∙◌}
use mathlib.Core.Logic.{◌≢◌, inl, inr}
use mathlib.Core.Bool.{Bool, true, false, ◌&&◌}
use mathlib.Core.Option.{Option, none, some}
use native.Mathlib.Omega.{arith}
use text.Mathlib.TextLemmas.{nil-append, cons-append, cons-ne-nil}
use hate_sentry.Base.Tests.{ltb, leb, ◌==◌, Bool-cases, if◌then◌else◌}

unfoldable pub digit_char : ℕ → Char
digit_char zero = "0"
digit_char (suc zero) = "1"
digit_char (suc (suc zero)) = "2"
digit_char (suc (suc (suc zero))) = "3"
digit_char (suc (suc (suc (suc zero)))) = "4"
digit_char (suc (suc (suc (suc (suc zero))))) = "5"
digit_char (suc (suc (suc (suc (suc (suc zero)))))) = "6"
digit_char (suc (suc (suc (suc (suc (suc (suc zero))))))) = "7"
digit_char (suc (suc (suc (suc (suc (suc (suc (suc zero)))))))) = "8"
digit_char _ = "9"

pub code-digit_char : (d : ℕ) → d < 10 → code (digit_char d) ≡ 48 + d
unfolding digit_char
code-digit_char zero h = refl
code-digit_char (suc zero) h = refl
code-digit_char (suc (suc zero)) h = refl
code-digit_char (suc (suc (suc zero))) h = refl
code-digit_char (suc (suc (suc (suc zero)))) h = refl
code-digit_char (suc (suc (suc (suc (suc zero))))) h = refl
code-digit_char (suc (suc (suc (suc (suc (suc zero)))))) h = refl
code-digit_char (suc (suc (suc (suc (suc (suc (suc zero))))))) h = refl
code-digit_char (suc (suc (suc (suc (suc (suc (suc (suc zero)))))))) h = refl
code-digit_char (suc (suc (suc (suc (suc (suc (suc (suc (suc zero))))))))) h = refl
code-digit_char (suc (suc (suc (suc (suc (suc (suc (suc (suc (suc d)))))))))) h =
    absurd (omega arith)

-- The digits of `n` in front of `out`; `n` rounds are enough, since each divides by ten.
unfoldable pub emit : ℕ → ℕ → String → String
emit zero n out = out
emit (suc fuel) n out =
    let rest = emit fuel (n / 10) (digit_char (n % 10) ∷ out) in if n == 0 then out else rest

-- `%d` and `%d` of an unsigned number.
unfoldable pub itoa : ℕ → String
unfolding emit digit_char
itoa n = if n == 0 then "0" else emit n n ""

unfoldable pub is_digit : Char → Bool
is_digit c = leb 48 (code c) && leb (code c) 57

unfoldable pub scan_digits : String → ℕ → Option ℕ
unfolding is_digit
scan_digits [] n = some n
scan_digits (c ∷ s) n = if is_digit c then scan_digits s (n * 10 + (code c - 48)) else none

abbrev pub uint_limit : ℕ
uint_limit = 2 ^ 64

abbrev pub int_limit : ℕ
int_limit = 2 ^ 63

abbrev pub below : ℕ → Option ℕ → Option ℕ
below limit none = none
below limit (some n) = if ltb n limit then some n else none

unfoldable pub parse_digits : ℕ → String → Option ℕ
unfolding scan_digits
parse_digits limit [] = none
parse_digits limit (c ∷ s) = below limit (scan_digits (c ∷ s) 0)

-- `strconv.ParseUint(s, 10, 0)`.
unfoldable pub parse_uint : String → Option ℕ
unfolding parse_digits
parse_uint s = parse_digits uint_limit s

-- A Go `int`: `negative n` is -(n + 1).
pub data Integer : Type 0 where
  nonnegative : ℕ → Integer
  negative : ℕ → Integer

abbrev negate : Option ℕ → Option Integer
negate none = none
negate (some zero) = some (nonnegative 0)
negate (some (suc n)) = some (negative n)

abbrev unsigned : Option ℕ → Option Integer
unsigned none = none
unsigned (some n) = some (nonnegative n)

-- `strconv.Atoi`: an optional sign, digits, and the range of a 64-bit `int`.
unfoldable pub parse_int : String → Option Integer
unfolding parse_digits
parse_int [] = none
parse_int (c ∷ s) =
    if code c == b'-'
    then negate (parse_digits (int_limit + 1) s)
    else if code c == b'+'
    then unsigned (parse_digits int_limit s)
    else unsigned (parse_digits int_limit (c ∷ s))

is_digit-digit_char : (d : ℕ) → d < 10 → is_digit (digit_char d) ≡ true
unfolding is_digit
is_digit-digit_char d h = ground (arith, code-digit_char d)

scan_last :
    (n : ℕ) (out : String) → scan_digits (digit_char (n % 10) ∷ out) (n / 10) ≡ scan_digits out n
unfolding scan_digits
scan_last n out =
    rw (is_digit-digit_char (n % 10) (omega arith), code-digit_char (n % 10) (omega arith))
      (ap (scan_digits out) (omega arith))

scan-emit :
    (fuel n : ℕ) (out : String) → n ≤ fuel → scan_digits (emit fuel n out) 0 ≡ scan_digits out n
unfolding emit
scan-emit zero n out h = ap (scan_digits out) (omega arith)
scan-emit (suc fuel) n out h = elim (Bool-cases (n == 0)) [
  | inl done ↦ rw done (ap (scan_digits out) (ground arith))
  | inr more ↦
      rw more (scan-emit fuel (n / 10) (digit_char (n % 10) ∷ out) (ground arith) ∙ scan_last n out)
]

-- Digits up to the first other rune, and what follows them.
unfoldable pub split_digits : String → ℕ → ℕ × String
unfolding is_digit
split_digits [] n = (n, [])
split_digits (c ∷ s) n = if is_digit c then split_digits s (n * 10 + (code c - 48)) else (n, c ∷ s)

split_last :
    (n : ℕ) (out : String) → split_digits (digit_char (n % 10) ∷ out) (n / 10) ≡ split_digits out n
unfolding split_digits
split_last n out =
    rw (is_digit-digit_char (n % 10) (omega arith), code-digit_char (n % 10) (omega arith))
      (ap (split_digits out) (omega arith))

split-emit :
    (fuel n : ℕ) (out : String) → n ≤ fuel → split_digits (emit fuel n out) 0 ≡ split_digits out n
unfolding emit
split-emit zero n out h = ap (split_digits out) (omega arith)
split-emit (suc fuel) n out h = elim (Bool-cases (n == 0)) [
  | inl done ↦ rw done (ap (split_digits out) (ground arith))
  | inr more ↦
      rw more
        (split-emit fuel (n / 10) (digit_char (n % 10) ∷ out) (ground arith) ∙ split_last n out)
]

emit-append : (fuel n : ℕ) (out t : String) → emit fuel n out ++ t ≡ emit fuel n (out ++ t)
unfolding emit
emit-append zero n out t = refl
emit-append (suc fuel) n out t = elim (Bool-cases (n == 0)) [
  | inl done ↦ rw done
  | inr more ↦ rw more (
      emit-append fuel (n / 10) (digit_char (n % 10) ∷ out) t
      ∙ ap (emit fuel (n / 10)) (cons-append (digit_char (n % 10)) out t))
]

zero_first : (t : String) → split_digits ("0" ∷ t) 0 ≡ split_digits t 0
unfolding split_digits
zero_first t = refl

-- Reading digits from a printed number stops right behind it, at any text that follows.
pub split-itoa-append : (n : ℕ) (t : String) → split_digits (itoa n ++ t) 0 ≡ split_digits t n
unfolding itoa
split-itoa-append n t = elim (Bool-cases (n == 0)) [
  | inl z ↦ rw z (
      ap (λ u. split_digits u 0) (cons-append "0" "" t ∙ ap (◌∷◌ "0") (nil-append t))
      ∙ zero_first t
      ∙ ap (split_digits t) (ground arith))
  | inr nz ↦ rw (nz, emit-append n n "" t, nil-append t) (split-emit n n t (omega arith))
]

digits_nonempty : (fuel n : ℕ) (out : String) → out ≢ [] → emit fuel n out ≢ []
unfolding emit
digits_nonempty zero n out h = h
digits_nonempty (suc fuel) n out h = elim (Bool-cases (n == 0)) [
  | inl done ↦ rw done h
  | inr more ↦ rw more (digits_nonempty fuel (n / 10) _ (λ e. cons-ne-nil _ out e))
]

emit_positive : (n : ℕ) → (n == 0) ≡ false → emit n n "" ≢ []
unfolding emit
emit_positive zero h = cc
emit_positive (suc n) h = rw h (digits_nonempty n (suc n / 10) _ (cons-ne-nil _ ""))

itoa-ne-nil : (n : ℕ) → itoa n ≢ []
unfolding itoa
itoa-ne-nil n = elim (Bool-cases (n == 0)) [
  | inl z ↦ rw z (cons-ne-nil "0" "")
  | inr nz ↦ rw nz (emit_positive n nz)
]

scan-itoa : (n : ℕ) → scan_digits (itoa n) 0 ≡ some n
unfolding itoa scan_digits
scan-itoa n = elim (Bool-cases (n == 0)) [
  | inl z ↦ rw z (ap {B = Option ℕ} some (ground arith))
  | inr nz ↦ rw nz (scan-emit n n "" (omega arith))
]

parse_digits-scan :
    (limit : ℕ) (s : String) → s ≢ [] → parse_digits limit s ≡ below limit (scan_digits s 0)
unfolding parse_digits
parse_digits-scan limit [] h = absurd (h refl)
parse_digits-scan limit (c ∷ s) h = refl

-- Every `uint` is read back from its decimal print.
pub parse_uint-itoa : (n : ℕ) → n < uint_limit → parse_uint (itoa n) ≡ some n
unfolding parse_uint
parse_uint-itoa n h =
    parse_digits-scan uint_limit (itoa n) (itoa-ne-nil n)
    ∙ ap (below uint_limit) (scan-itoa n)
    ∙ in_range
  where
    in_range : below uint_limit (some n) ≡ some n
    in_range = ground arith

-- What a parser of digits returns is below its limit.
pub parse_digits-lt : (limit : ℕ) (s : String) {n : ℕ} → parse_digits limit s ≡ some n → n < limit
unfolding parse_digits
parse_digits-lt limit [] h = cc
parse_digits-lt limit (c ∷ s) h = below-lt limit (scan_digits (c ∷ s) 0) h
  where
    below-lt : (l : ℕ) (o : Option ℕ) {m : ℕ} → below l o ≡ some m → m < l
    below-lt l none e = cc
    below-lt l (some k) e = ground arith
