-- ===== src/Base/Integers.antt =====
-- Go's 64-bit `int` and `time.Duration`: comparison, and arithmetic that wraps around.
use Prim.Native.Nat.{ℕ, ◌+◌, ◌-◌, ◌%◌, ◌/◌, ◌^◌}
use Prim.Native.String.{String, ◌++◌}
use mathlib.Core.Bool.{Bool, true, false}
use hate_sentry.Base.Tests.{ltb, leb, if◌then◌else◌}
use hate_sentry.Base.Decimal.{Integer, nonnegative, negative, itoa}

abbrev pub int_ltb : Integer → Integer → Bool
int_ltb (nonnegative a) (nonnegative b) = ltb a b
int_ltb (nonnegative a) (negative b) = false
int_ltb (negative a) (nonnegative b) = true
int_ltb (negative a) (negative b) = ltb b a

abbrev pub int_leb : Integer → Integer → Bool
int_leb (nonnegative a) (nonnegative b) = leb a b
int_leb (nonnegative a) (negative b) = false
int_leb (negative a) (nonnegative b) = true
int_leb (negative a) (negative b) = leb b a

-- The two's complement of so many.
unfoldable pub wrapped : ℕ → Integer
wrapped n =
    let m = n % (2 ^ 64) in if ltb m (2 ^ 63) then nonnegative m else negative (2 ^ 64 - 1 - m)

abbrev pub difference : ℕ → ℕ → Integer
difference a b = if leb b a then nonnegative (a - b) else negative (b - a - 1)

-- `a - b`.
unfoldable pub int_sub : Integer → Integer → Integer
unfolding wrapped
int_sub (nonnegative a) (nonnegative b) = difference a b
int_sub (nonnegative a) (negative b) = wrapped (a + b + 1)
int_sub (negative a) (nonnegative b) = wrapped (2 ^ 64 - 1 - a + 2 ^ 64 - b)
int_sub (negative a) (negative b) = difference b a

-- `a / b`, which rounds towards zero.
unfoldable pub int_div : Integer → ℕ → Integer
int_div (nonnegative a) b = nonnegative (a / b)
int_div (negative a) b = difference 0 ((a + 1) / b)

-- `strconv.Itoa`.
unfoldable pub int_text : Integer → String
unfolding itoa
int_text (nonnegative n) = itoa n
int_text (negative n) = "-" ++ itoa (n + 1)
