-- ===== src/Float64/Ratios.antt =====
-- The quotient of two natural numbers, the first at most the second.
use sentinel_protocol.Base.{
  ℕ, ◌+◌, ◌-◌, ◌*◌, ◌/◌, ◌%◌, ◌^◌, ◌≤◌, ◌<◌, ◌≡◌, sym, ap, subst, ◌∙◌, arith, ◌==◌, ℕ_discrete,
  if◌then◌else◌,
}
use native.Mathlib.Nat.{
  mul-le-mul_right, mul-le-mul_left, div-mul-le_self, div-add-mod, div-le_of_le-mul,
  le_of_mul-le-mul_right, mul-le-mul_left, div-mul-le_self, div-add-mod, pow-le-pow_right, pow-suc,
  mul-div_cancel_left,
}
use native.Mathlib.Numerals.{add-one}
use sentinel_protocol.Rounding.{bits, rounded}
use sentinel_protocol.Rounding.Within.{rounded-one, rounded-le, rounded-lt, pow-sub, lt-bits}
use sentinel_protocol.Float64
use sentinel_protocol.Float64.{Float64, quotient}

-- At most 1, and below it.
abbrev pub IsRatio : Float64 → Type 0
IsRatio x = x.mant ≤ 2 ^ x.scale

abbrev pub IsPartial : Float64 → Type 0
IsPartial x = x.mant < 2 ^ x.scale

abbrev pub IsOne : Float64 → Type 0
IsOne x = x.mant ≡ 2 ^ x.scale

-- The doubled quotient with its sticky bit.
abbrev sticky : ℕ → ℕ → ℕ
sticky n b = let m = n / b * 2 in if n % b == 0 then m else m + 1

sticky-le : (n b w : ℕ) → n ≤ b * w → sticky n b ≤ w * 2
sticky-le n b w h =
    let q_le : n / b ≤ w = div-le_of_le-mul b h in
    let split : b * (n / b) + n % b ≡ n = div-add-mod n b in
    elim (ℕ_discrete (n / b) w) [
      | yes same ↦
          let full : b * (n / b) ≡ b * w = ap (λ x. b * x) same in
          let none_left : n % b ≡ 0 = omega arith in ground (arith, none_left, q_le)
      | no apart ↦ ground (arith, q_le, apart)
    ]

sticky-lt :
    (n b w u : ℕ)
    → n + w ≤ b * w
    → w ≡ 4503599627370496 * u
    → b ≤ u
    → b ≤ 9007199254740991
    → 1 ≤ b
    → sticky n b + u ≤ w * 2
sticky-lt n b w u h unit wide small pos =
    let q = n / b in
    let q_le : q * b ≤ n = div-mul-le_self n b in
    let u_le : u * b ≤ u * 9007199254740991 = mul-le-mul_left u small in
    let expand : (q * 2 + 1 + u) * b ≡ q * b * 2 + b + u * b = omega arith in
    let expand' : w * 2 * b ≡ b * w * 2 = omega arith in
    let scaled : (q * 2 + 1 + u) * b ≤ w * 2 * b = omega arith in
    let below : q * 2 + 1 + u ≤ w * 2 = le_of_mul-le-mul_right scaled pos in ground (arith, below)

-- A ratio is at most 1, is below 1 when something is missing, and is 1 when nothing is.
pub quotient-IsRatio : (a b : ℕ) → a ≤ b → IsRatio (quotient a b)
unfolding quotient Float64.round
quotient-IsRatio a b h =
    let s = 55 + bits b in
    let scaled : a * 2 ^ s ≤ b * 2 ^ s = mul-le-mul_right (2 ^ s) h in
    let within : sticky (a * 2 ^ s) b ≤ 2 ^ s * 2 = sticky-le (a * 2 ^ s) b (2 ^ s) scaled in
    rounded-le 53 (sticky (a * 2 ^ s) b) (s + 1) (omega arith) (rw (add-one s, pow-suc 2 s) within)

pub quotient-IsPartial : (a b : ℕ) → a < b → b ≤ 9007199254740991 → IsPartial (quotient a b)
unfolding quotient Float64.round
quotient-IsPartial a b h small =
    let s = 55 + bits b in
    let u = 2 ^ (s - 52) in
    let scaled : (a + 1) * 2 ^ s ≤ b * 2 ^ s = mul-le-mul_right (2 ^ s) (omega arith) in
    let units : 2 ^ 52 * 2 ^ (s - 52) ≡ 2 ^ s = pow-sub s 52 (omega arith) in
    let room : b < 2 ^ bits b = lt-bits b in
    let wider : 2 ^ bits b ≤ 2 ^ (s - 52) = pow-le-pow_right (omega arith) (omega arith) in
    let below : sticky (a * 2 ^ s) b + u ≤ 2 ^ s * 2 =
      sticky-lt (a * 2 ^ s) b (2 ^ s) u (omega arith) (omega arith) (omega arith) small
        (omega arith) in
    let same_unit : s + 1 - 53 ≡ s - 52 = omega arith in
    rounded-lt 53 (sticky (a * 2 ^ s) b) (s + 1) (omega arith)
      (rw (same_unit, add-one s, pow-suc 2 s) below)

sticky_whole : (b w : ℕ) → 1 ≤ b → sticky (b * w) b ≡ w * 2
sticky_whole b w h =
    let exact : b * w / b ≡ w = mul-div_cancel_left w h in
    let split : b * (b * w / b) + b * w % b ≡ b * w = div-add-mod (b * w) b in
    let full : b * (b * w / b) ≡ b * w = ap (λ x. b * x) exact in
    let none_left : b * w % b ≡ 0 = omega arith in ground (arith, none_left, exact)

pub quotient-IsOne : (b : ℕ) → 1 ≤ b → IsOne (quotient b b)
unfolding quotient Float64.round
quotient-IsOne b h =
    let s = 55 + bits b in
    let all_of_it : sticky (b * 2 ^ s) b ≡ 2 ^ (s + 1) =
      sticky_whole b (2 ^ s) h ∙ sym (pow-suc 2 s) ∙ ap (λ k. 2 ^ k) (sym (add-one s)) in
    subst (λ m. (rounded 53 m (s + 1)).0 ≡ 2 ^ (rounded 53 m (s + 1)).1) (sym all_of_it)
      (rounded-one 53 (s + 1) (omega arith))
