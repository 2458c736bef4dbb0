-- ===== src/Float64.antt =====
-- Go's `float64` under comparison. Every finite float64 is a whole multiple of 2^-1074, so a
-- finite value is that multiple, exactly; the two zeros compare equal and are one value here.
use hate_sentry.Base.{ℕ, ◌^◌, Bool, true, false, not, leb}
use hate_sentry.Base.Decimal.{Integer, nonnegative, negative}

pub data Float64 : Type 0 where
  nan : Float64
  infinite : Bool → Float64
  finite : Integer → Float64

-- 1.0, in multiples of 2^-1074.
unfoldable pub units : ℕ
units = 2 ^ 1074

abbrev pub float_zero : Float64
float_zero = finite (nonnegative 0)

abbrev pub float_one : Float64
float_one = finite (nonnegative units)

abbrev pub integer_le : Integer → Integer → Bool
integer_le (nonnegative a) (nonnegative b) = leb a b
integer_le (nonnegative a) (negative b) = false
integer_le (negative a) (nonnegative b) = true
integer_le (negative a) (negative b) = leb b a

-- `a <= b`: false if one of them is not a number. `infinite true` is -Inf.
abbrev pub float_le : Float64 → Float64 → Bool
float_le nan b = false
float_le (infinite true) nan = false
float_le (infinite true) _ = true
float_le (infinite false) (infinite false) = true
float_le (infinite false) _ = false
float_le (finite a) nan = false
float_le (finite a) (infinite negative_sign) = not negative_sign
float_le (finite a) (finite b) = integer_le a b

-- `a < b`.
abbrev pub float_lt : Float64 → Float64 → Bool
float_lt nan b = false
float_lt a nan = false
float_lt a b = not (float_le b a)

-- `math.IsNaN` and `math.IsInf(f, 0)`.
abbrev pub is_nan : Float64 → Bool
is_nan nan = true
is_nan _ = false

abbrev pub is_inf : Float64 → Bool
is_inf (infinite _) = true
is_inf _ = false
