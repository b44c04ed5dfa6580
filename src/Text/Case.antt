-- ===== src/Text/Case.antt =====
-- Lower case and trimming: each is idempotent, and they commute.
use sentinel_protocol.Base.{
  ℕ, Bool, true, false, List, [], ◌∷◌, ◌++◌, arith, ◌≡◌, refl, ap, ◌∙◌, Bool-cases, inl, inr,
}
use mathlib.Core.List.{map-append}
use sentinel_protocol.Text.{lower, to_lower, is_space, trim_left, trim_right, trim_space, kept}

lower_idem : (c : ℕ) → lower (lower c) ≡ lower c
unfolding lower
lower_idem c = ground arith

pub to_lower_idem : (s : List ℕ) → to_lower (to_lower s) ≡ to_lower s
unfolding to_lower
to_lower_idem [] = refl
to_lower_idem (c ∷ s) = cc (lower_idem c, to_lower_idem s)

pub to_lower-append : (s t : List ℕ) → to_lower (s ++ t) ≡ to_lower s ++ to_lower t
unfolding to_lower
to_lower-append s t = map-append lower s t

is_space-lower : (c : ℕ) → is_space (lower c) ≡ is_space c
unfolding is_space lower
is_space-lower c = ground arith

trim_left-to_lower : (s : List ℕ) → trim_left (to_lower s) ≡ to_lower (trim_left s)
unfolding trim_left to_lower
trim_left-to_lower [] = refl
trim_left-to_lower (c ∷ s) = ground (arith, is_space-lower c, trim_left-to_lower s)

kept-to_lower :
    (b : Bool) (c : ℕ) (s : List ℕ) → kept b (lower c) (to_lower s) ≡ to_lower (kept b c s)
unfolding to_lower
kept-to_lower true c [] = refl
kept-to_lower true c (x ∷ s) = refl
kept-to_lower false c s = refl

trim_right-to_lower : (s : List ℕ) → trim_right (to_lower s) ≡ to_lower (trim_right s)
unfolding trim_right to_lower
trim_right-to_lower [] = refl
trim_right-to_lower (c ∷ s) =
    cc (is_space-lower c, trim_right-to_lower s, kept-to_lower (is_space c) c (trim_right s))

-- Lower case and trimming commute.
pub trim_space-to_lower : (s : List ℕ) → trim_space (to_lower s) ≡ to_lower (trim_space s)
unfolding trim_space
trim_space-to_lower s = ap trim_right (trim_left-to_lower s) ∙ trim_right-to_lower (trim_left s)

trim_left_idem : (s : List ℕ) → trim_left (trim_left s) ≡ trim_left s
unfolding trim_left
trim_left_idem [] = refl
trim_left_idem (c ∷ s) = ground (arith, trim_left_idem s)

trim_right-kept :
    (b : Bool) (c : ℕ) (s : List ℕ)
    → is_space c ≡ b
    → trim_right s ≡ s
    → trim_right (kept b c s) ≡ kept b c s
unfolding trim_right
trim_right-kept true c [] h e = refl
trim_right-kept true c (x ∷ s) h e = rw (e, h) refl
trim_right-kept false c s h e = rw (e, h) refl

trim_right_idem : (s : List ℕ) → trim_right (trim_right s) ≡ trim_right s
unfolding trim_right
trim_right_idem [] = refl
trim_right_idem (c ∷ s) = trim_right-kept (is_space c) c (trim_right s) refl (trim_right_idem s)

-- A text whose first byte is kept by the left trim keeps it under the right trim.
trim_left-kept :
    (b : Bool) (c : ℕ) (s : List ℕ)
    → is_space c ≡ false
    → is_space c ≡ b
    → trim_left (kept b c s) ≡ kept b c s
unfolding trim_left
trim_left-kept true c s h e = cc
trim_left-kept false c s h e = rw h refl

trim_left-trim_right :
    (s : List ℕ) → trim_left (trim_right (trim_left s)) ≡ trim_right (trim_left s)
unfolding trim_left trim_right
trim_left-trim_right [] = refl
trim_left-trim_right (c ∷ s) = elim (Bool-cases (is_space c)) [
  | inl blank ↦ rw blank (trim_left-trim_right s)
  | inr solid ↦ rw solid (trim_left-kept (is_space c) c (trim_right s) solid refl)
]

pub trim_space_idem : (s : List ℕ) → trim_space (trim_space s) ≡ trim_space s
unfolding trim_space
trim_space_idem s = ap trim_right (trim_left-trim_right s) ∙ trim_right_idem (trim_left s)
