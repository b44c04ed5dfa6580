-- ===== src/Float32.antt =====
-- Go's float32, for the values that the risk scores take: zero and positive normal numbers. A value
-- is a dyadic fraction, and an operation rounds its exact result to 24 significant bits. The exponent range is not limited: the risk
-- scores and their products stay between 2 ^ -8 and 2 ^ 8, far inside the range of the format.
use sentinel_protocol.Base.{
  ℕ, ◌+◌, ◌*◌, ◌/◌, ◌%◌, ◌^◌, ◌≡◌, refl, Bool, true, ltb, leb, ◌==◌, if◌then◌else◌,
}
use sentinel_protocol.Rounding.{rounded}

-- The number mant / 2 ^ scale.
pub record Float32 : Type 0 where
  pub mant : ℕ
  pub scale : ℕ

-- The rounding of m / 2 ^ e to 24 bits.
unfoldable pub round : ℕ → ℕ → Float32
unfolding rounded
round m e = let (mant, scale) = rounded 24 m e in record { mant = mant; scale = scale }

unfoldable pub add : Float32 → Float32 → Float32
unfolding round
add a b = round (a.mant * 2 ^ b.scale + b.mant * 2 ^ a.scale) (a.scale + b.scale)

unfoldable pub mul : Float32 → Float32 → Float32
unfolding round
mul a b = round (a.mant * b.mant) (a.scale + b.scale)

-- a ≤ b and a < b.
unfoldable pub le : Float32 → Float32 → Bool
le a b = leb (a.mant * 2 ^ b.scale) (b.mant * 2 ^ a.scale)

unfoldable pub lt : Float32 → Float32 → Bool
lt a b = ltb (a.mant * 2 ^ b.scale) (b.mant * 2 ^ a.scale)

-- The conversion int(a), which drops the fraction.
unfoldable pub to_int : Float32 → ℕ
to_int a = a.mant / 2 ^ a.scale

-- The constant n / 100, rounded at 40 bits behind the point and a bit for what is left of the
-- division, so that the second rounding sees whether the first was exact.
unfoldable pub hundredths : ℕ → Float32
unfolding round
hundredths n =
    let scaled = n * 2 ^ 40 / 100 in
    round (scaled * 2 + (if n * 2 ^ 40 % 100 == 0 then 0 else 1)) 41

unfoldable pub whole : ℕ → Float32
unfolding round
whole n = round n 0

-- 0.8 is 0x3f4ccccd, and 0.7 + 0.2 rounds to the float32 nearest to 0.9.
eight_tenths : hundredths 80 ≡ record { mant = 13421773; scale = 24 }
unfolding hundredths
eight_tenths = refl

seven_and_two : le (hundredths 90) (add (hundredths 70) (hundredths 20)) ≡ true
unfolding hundredths add le
seven_and_two = refl
