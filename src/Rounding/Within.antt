-- ===== src/Rounding/Within.antt =====
-- Rounding does not leave the interval from 0 to 1, and does not reach 1 from a unit below it.
use sentinel_protocol.Base.{
  ℕ, zero, suc, ◌+◌, ◌-◌, ◌*◌, ◌/◌, ◌%◌, ◌^◌, ◌≤◌, ◌<◌, ◌≡◌, sym, ap, subst, ◌∙◌, true, arith,
  ℕ_discrete, if◌then◌else◌, if_both_by, if_both,
}
use native.Mathlib.Nat.{
  one-le-pow, pow-le-pow_right, two-pow-succ, div-add-mod, add-mul, mul-add, mul-div_cancel_left,
  div-lt_iff_lt-mul, div-le_of_le-mul, pow-suc,
}
use sentinel_protocol.Rounding.{bits_within, bits, rounds_up, cut_to, rounded}

pub pow_pos : (n : ℕ) → 1 ≤ 2 ^ n
pow_pos n = one-le-pow n 2 (omega arith)

pub pow-sub : (n k : ℕ) → k ≤ n → 2 ^ k * 2 ^ (n - k) ≡ 2 ^ n
pow-sub n zero h = ground (arith, pow_pos n)
pow-sub (suc n) (suc k) h =
    let below : 2 ^ k * 2 ^ (n - k) ≡ 2 ^ n = pow-sub n k (omega arith) in
    let double : 2 ^ suc k ≡ 2 ^ k + 2 ^ k = two-pow-succ k in
    let same : suc n - suc k ≡ n - k = omega arith in
    rw (same, double, two-pow-succ n)
      (add-mul (2 ^ k) (2 ^ k) (2 ^ (n - k)) ∙ ap (λ x. x + x) below)
pow-sub zero (suc k) h = absurd (omega arith)

-- No number of k bits is measured longer.
bits_within-le : (fuel n k : ℕ) → n < 2 ^ k → bits_within fuel n ≤ k
unfolding bits_within
bits_within-le zero n k h = omega arith
bits_within-le (suc fuel) n zero h = let zero_it : n ≡ 0 = omega arith in rw zero_it (omega arith)
bits_within-le (suc fuel) n (suc k) h =
    let half : n / 2 < 2 ^ k =
      (div-lt_iff_lt-mul (omega arith)).1 (subst (λ m. n < m) (pow-suc 2 k) h) in
    let rest = bits_within-le fuel (n / 2) k half in ground (arith, rest)

-- A number has no more bits than rounds.
lt-bits_within : (fuel n : ℕ) → n ≤ fuel → n < 2 ^ bits_within fuel n
unfolding bits_within
lt-bits_within zero n h = omega arith
lt-bits_within (suc fuel) zero h = omega arith
lt-bits_within (suc fuel) (suc n) h =
    let half : suc n / 2 < 2 ^ bits_within fuel (suc n / 2) =
      lt-bits_within fuel (suc n / 2) (omega arith) in
    let double : 2 ^ suc (bits_within fuel (suc n / 2))
        ≡ 2 ^ bits_within fuel (suc n / 2) + 2 ^ bits_within fuel (suc n / 2) =
      two-pow-succ (bits_within fuel (suc n / 2)) in
    ground (arith, half, double)

-- The mantissa that is kept.
abbrev kept : ℕ → ℕ → ℕ
kept cut m = let q = m / 2 ^ cut in if rounds_up cut (m % 2 ^ cut) q then q + 1 else q

nothing_cut : (cut rest q : ℕ) → rounds_up cut rest q ≡ true → 1 ≤ rest
unfolding rounds_up
nothing_cut cut zero q up = absurd (ground (arith, pow_pos cut, up))
nothing_cut cut (suc rest) q up = omega arith

kept-le : (cut m most : ℕ) → m ≤ 2 ^ cut * most → kept cut m ≤ most
kept-le cut m most h =
    let q_le : m / 2 ^ cut ≤ most = div-le_of_le-mul (2 ^ cut) h in
    let split : 2 ^ cut * (m / 2 ^ cut) + m % 2 ^ cut ≡ m = div-add-mod m (2 ^ cut) in
    if_both_by (λ x. x ≤ most) (rounds_up cut (m % 2 ^ cut) (m / 2 ^ cut)) _ _
      (λ up. elim (ℕ_discrete (m / 2 ^ cut) most) [
        | yes same ↦
            let some_rest : 1 ≤ m % 2 ^ cut = nothing_cut cut (m % 2 ^ cut) (m / 2 ^ cut) up in
            let at_most : 2 ^ cut * (m / 2 ^ cut) ≡ 2 ^ cut * most = ap (λ x. 2 ^ cut * x) same in
            absurd (omega arith)
        | no apart ↦ omega arith
      ])
      (λ down. q_le)

-- A unit of the last bit below, the bound is not reached.
kept-le_below : (cut m most : ℕ) → m + 2 ^ cut ≤ 2 ^ cut * (most + 1) → kept cut m ≤ most
kept-le_below cut m most h =
    let step : 2 ^ cut * (most + 1) ≡ 2 ^ cut * most + 2 ^ cut * 1 = mul-add (2 ^ cut) most 1 in
    kept-le cut m most (omega arith)

rounded-kept :
    (precision m e : ℕ)
    → bits m - precision ≤ e
    → (rounded precision m e).0 ≡ kept (bits m - precision) m
unfolding rounded cut_to
rounded-kept precision m e h =
    let nothing_over : bits m - precision - e ≡ 0 = omega arith in rw nothing_over (omega arith)

pub lt-bits : (n : ℕ) → n < 2 ^ bits n
unfolding bits
lt-bits n = lt-bits_within n n (omega arith)

pub bits-le : (m k : ℕ) → m < 2 ^ k → bits m ≤ k
unfolding bits
bits-le m k h = bits_within-le m m k h

-- What is at most 1 is at most 1 when it is rounded.
pub rounded-le :
    (precision m e : ℕ)
    → 1 ≤ precision
    → m ≤ 2 ^ e
    → (rounded precision m e).0 ≤ 2 ^ (rounded precision m e).1
unfolding rounded cut_to
rounded-le precision m e p h =
    let double : 2 ^ suc e ≡ 2 ^ e + 2 ^ e = two-pow-succ e in
    let some_e : 1 ≤ 2 ^ e = pow_pos e in
    let short : bits m ≤ suc e = bits-le m (suc e) (omega arith) in
    let cut = bits m - precision in
    let within : bits m - precision ≤ e = omega arith in
    let whole : 2 ^ cut * 2 ^ (e - cut) ≡ 2 ^ e = pow-sub e cut within in
    rw (rounded-kept precision m e within) (kept-le cut m (2 ^ (e - cut)) (rw whole h))

-- What is a unit below 1 stays below 1.
pub rounded-lt :
    (precision m e : ℕ)
    → precision ≤ e
    → m + 2 ^ (e - precision) ≤ 2 ^ e
    → (rounded precision m e).0 < 2 ^ (rounded precision m e).1
unfolding rounded cut_to
rounded-lt precision m e p h =
    let some_unit : 1 ≤ 2 ^ (e - precision) = pow_pos (e - precision) in
    let short : bits m ≤ e = bits-le m e (omega arith) in
    let cut = bits m - precision in
    let within : bits m - precision ≤ e = omega arith in
    let whole : 2 ^ cut * 2 ^ (e - cut) ≡ 2 ^ e = pow-sub e cut within in
    let unit : 2 ^ cut ≤ 2 ^ (e - precision) = pow-le-pow_right (omega arith) (omega arith) in
    let some_room : 1 ≤ 2 ^ (e - cut) = pow_pos (e - cut) in
    let again : 2 ^ (e - cut) - 1 + 1 ≡ 2 ^ (e - cut) = omega arith in
    let kept_it : kept cut m ≤ 2 ^ (e - cut) - 1 =
      kept-le_below cut m (2 ^ (e - cut) - 1) (rw (again, whole) (omega arith)) in
    rw (rounded-kept precision m e within) (omega arith)

-- 1 stays 1.
pub rounded-one :
    (precision e : ℕ)
    → 1 ≤ precision
    → (rounded precision (2 ^ e) e).0 ≡ 2 ^ (rounded precision (2 ^ e) e).1
unfolding rounded cut_to
rounded-one precision e p =
    let double : 2 ^ suc e ≡ 2 ^ e + 2 ^ e = two-pow-succ e in
    let some_e : 1 ≤ 2 ^ e = pow_pos e in
    let short : bits (2 ^ e) ≤ suc e = bits-le (2 ^ e) (suc e) (omega arith) in
    let cut = bits (2 ^ e) - precision in
    let within : bits (2 ^ e) - precision ≤ e = omega arith in
    let whole : 2 ^ cut * 2 ^ (e - cut) ≡ 2 ^ e = pow-sub e cut within in
    let q : 2 ^ e / 2 ^ cut ≡ 2 ^ (e - cut) =
      ap (λ m. m / 2 ^ cut) (sym whole) ∙ mul-div_cancel_left (2 ^ (e - cut)) (pow_pos cut) in
    let most : kept cut (2 ^ e) ≤ 2 ^ (e - cut) =
      kept-le cut (2 ^ e) (2 ^ (e - cut)) (omega arith) in
    let least : 2 ^ e / 2 ^ cut ≤ kept cut (2 ^ e) =
      if_both (λ x. 2 ^ e / 2 ^ cut ≤ x) (rounds_up cut (2 ^ e % 2 ^ cut) (2 ^ e / 2 ^ cut)) _ _
        (omega arith) (omega arith) in
    rounded-kept precision (2 ^ e) e within ∙ (omega arith)
