-- ===== src/Base/Int.antt =====
-- Go's `int`, 64 bits wide: the integers with the wrap of an increment written out.
use Prim.Native.Nat.{ℕ, suc, zero, ◌+◌, ◌<◌}
use mathlib.Core.Path.{◌≡◌, refl}
use mathlib.Core.Bool.{Bool, true, false}
use native.Mathlib.Omega.{arith}
use sentinel_protocol.Base.Tests.{ltb, leb, if◌then◌else◌}

-- `negsuc n` is -(n + 1).
pub data ℤ : Type 0 where
  pos : ℕ → ℤ
  negsuc : ℕ → ℤ

-- a ≤ b and a < b.
abbrev pub leb_ℤ : ℤ → ℤ → Bool
leb_ℤ (pos m) (pos n) = leb m n
leb_ℤ (pos m) (negsuc n) = false
leb_ℤ (negsuc m) (pos n) = true
leb_ℤ (negsuc m) (negsuc n) = leb n m

abbrev pub ltb_ℤ : ℤ → ℤ → Bool
ltb_ℤ (pos m) (pos n) = ltb m n
ltb_ℤ (pos m) (negsuc n) = false
ltb_ℤ (negsuc m) (pos n) = true
ltb_ℤ (negsuc m) (negsuc n) = ltb n m

-- The largest `int`, 2 ^ 63 - 1.
abbrev pub max_int64 : ℕ
max_int64 = 9223372036854775807

-- `n++` on an `int`: the largest value wraps to the smallest.
abbrev pub increment : ℤ → ℤ
increment (pos n) = if ltb n max_int64 then pos (n + 1) else negsuc max_int64
increment (negsuc zero) = pos 0
increment (negsuc (suc n)) = negsuc n

-- `if a > b { return a }; return b`.
abbrev pub max_int : ℤ → ℤ → ℤ
max_int a b = if ltb_ℤ b a then a else b

pub max_int-le : (a b : ℤ) → leb_ℤ b (max_int a b) ≡ true
max_int-le (pos m) (pos n) = ground arith
max_int-le (pos m) (negsuc n) = refl
max_int-le (negsuc m) (pos n) = ground arith
max_int-le (negsuc m) (negsuc n) = ground arith

-- `if d <= 0 { d = fallback }` on a duration, in nanoseconds.
abbrev pub positive_or : ℤ → ℕ → ℕ
positive_or (pos zero) fallback = fallback
positive_or (pos (suc n)) fallback = suc n
positive_or (negsuc n) fallback = fallback

pub positive_or-pos : (d : ℤ) (fallback : ℕ) → 0 < fallback → 0 < positive_or d fallback
positive_or-pos (pos zero) fallback h = h
positive_or-pos (pos (suc n)) fallback h = omega arith
positive_or-pos (negsuc n) fallback h = h
