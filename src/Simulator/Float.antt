-- ===== src/Simulator/Float.antt =====
-- Python floats. Every finite double is a whole number of units of 2 ^ -1074, and is that number
-- here, so comparisons and products by powers of two are exact.
use storepulse.Prelude.{ℕ, zero, ◌*◌, ◌/◌, ◌^◌, Bool, true, false, if◌then◌else◌, ltb}
use storepulse.Prelude.Int.{ℤ, pos, ltb_ℤ, leb_ℤ}

pub data Float : Type 0 where
  finite : ℤ → Float
  infinity minus_infinity nan : Float

-- The float n / d, for a `d` that is a power of two.
abbrev pub ratio : ℕ → ℕ → Float
ratio n d = finite (pos (n * (2 ^ 1074 / d)))

abbrev pub float_zero : Float
float_zero = finite (pos 0)

abbrev pub float_one : Float
float_one = finite (pos (2 ^ 1074))

-- `a < b`: false as soon as one is NaN.
unfoldable pub lt_float : Float → Float → Bool
lt_float (finite a) (finite b) = ltb_ℤ a b
lt_float (finite a) infinity = true
lt_float minus_infinity (finite b) = true
lt_float minus_infinity infinity = true
lt_float _ _ = false

unfoldable pub le_float : Float → Float → Bool
le_float (finite a) (finite b) = leb_ℤ a b
le_float (finite a) infinity = true
le_float infinity infinity = true
le_float minus_infinity (finite b) = true
le_float minus_infinity infinity = true
le_float minus_infinity minus_infinity = true
le_float _ _ = false

-- `a == 0`
unfoldable pub is_zero_float : Float → Bool
is_zero_float (finite (pos zero)) = true
is_zero_float _ = false

-- Python's `min(a, b)`: the first, unless the second is smaller.
unfoldable pub min_float : Float → Float → Float
unfolding lt_float
min_float a b = if lt_float b a then b else a

-- Python's `max(a, b)`: the first, unless the second is larger.
unfoldable pub max_float : Float → Float → Float
unfolding lt_float
max_float a b = if lt_float a b then b else a

-- The least number of units that a double does not reach, 2 ^ 1024.
abbrev pub float_limit : ℕ
float_limit = 2 ^ 2098

-- A product by 2 ^ k that is too large is an infinity.
unfoldable pub scale_pos : ℕ → ℕ → Float
scale_pos z k = if ltb (z * 2 ^ k) float_limit then finite (pos (z * 2 ^ k)) else infinity
