-- ===== src/Rounding.antt =====
-- How Go's floating-point numbers round: zero and positive normal numbers, as dyadic fractions. The
-- exact result of an operation is rounded to the precision of the format, to nearest with ties to
-- even, as IEEE 754 does.
pub mod Within
use sentinel_protocol.Base.{
  ℕ, zero, suc, ◌+◌, ◌-◌, ◌*◌, ◌/◌, ◌%◌, ◌^◌, Bool, true, false, ◌&&◌, ◌||◌, ltb, ◌==◌,
  if◌then◌else◌,
}

-- How many bits `n` has, in so many rounds; each drops one.
unfoldable pub bits_within : ℕ → ℕ → ℕ
bits_within zero n = 0
bits_within (suc fuel) n = elim (n == 0) [ true ↦ 0 | false ↦ suc (bits_within fuel (n / 2)) ]

-- `n` rounds are enough.
unfoldable pub bits : ℕ → ℕ
unfolding bits_within
bits n = bits_within n n

-- To nearest: up when more than half of a unit is cut off, or half of one and the rest is odd.
unfoldable pub rounds_up : ℕ → ℕ → ℕ → Bool
rounds_up cut rest q = ltb (2 ^ cut) (rest * 2) || (rest * 2 == 2 ^ cut && q % 2 == 1)

-- m / 2 ^ e, without its last `cut` bits.
unfoldable pub cut_to : ℕ → ℕ → ℕ → ℕ × ℕ
unfolding rounds_up
cut_to cut m e =
    let q = m / 2 ^ cut in
    let kept = if rounds_up cut (m % 2 ^ cut) q then q + 1 else q in (kept * 2 ^ (cut - e), e - cut)

-- The rounding of m / 2 ^ e to `precision` bits, as a mantissa and a scale.
unfoldable pub rounded : ℕ → ℕ → ℕ → ℕ × ℕ
unfolding bits cut_to
rounded precision m e = cut_to (bits m - precision) m e
