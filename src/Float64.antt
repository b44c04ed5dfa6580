-- ===== src/Float64.antt =====
-- Go's float64, for the ratios of a benchmark report: zero and positive normal numbers. A value is a
-- dyadic fraction, and an operation rounds its exact result to 53 significant bits. The exponent
-- range is not limited: the ratios of counts below 2 ^ 63, their sums, products and quotients are far
-- inside the range of the format.
pub mod Ratios
use sentinel_protocol.Base.{ℕ, ◌+◌, ◌*◌, ◌/◌, ◌%◌, ◌^◌, Bool, ltb, ◌==◌, if◌then◌else◌}
use sentinel_protocol.Rounding.{bits, rounded}

-- The number mant / 2 ^ scale.
pub record Float64 : Type 0 where
  pub mant : ℕ
  pub scale : ℕ

-- The rounding of m / 2 ^ e to 53 bits.
unfoldable pub round : ℕ → ℕ → Float64
round m e = let (mant, scale) = rounded 53 m e in record { mant = mant; scale = scale }

-- The conversion of an int that is not negative.
unfoldable pub whole : ℕ → Float64
whole n = round n 0

unfoldable pub add : Float64 → Float64 → Float64
add a b = round (a.mant * 2 ^ b.scale + b.mant * 2 ^ a.scale) (a.scale + b.scale)

unfoldable pub mul : Float64 → Float64 → Float64
mul a b = round (a.mant * b.mant) (a.scale + b.scale)

-- The quotient of two natural numbers, to at least 56 bits and one for what is left of the division,
-- so that the rounding sees whether it was exact.
unfoldable pub quotient : ℕ → ℕ → Float64
quotient a b =
    let s = 55 + bits b in
    let m = a * 2 ^ s / b * 2 in round (if a * 2 ^ s % b == 0 then m else m + 1) (s + 1)

unfoldable pub div : Float64 → Float64 → Float64
div a b = quotient (a.mant * 2 ^ b.scale) (b.mant * 2 ^ a.scale)

unfoldable pub lt : Float64 → Float64 → Bool
lt a b = ltb (a.mant * 2 ^ b.scale) (b.mant * 2 ^ a.scale)
