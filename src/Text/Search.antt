-- ===== src/Text/Search.antt =====
-- strings.Contains finds exactly the infixes.
use sentinel_protocol.Base.{
  ℕ, true, List, [], ◌∷◌, ◌++◌, arith, ◌≡◌, refl, ap, ◌∙◌, Bool-cases, inl, inr, ◌↔◌,
}
use mathlib.Core.List.{append_assoc}
use sentinel_protocol.Text.{is_prefix, contains}

is_prefix_self : (t s : List ℕ) → is_prefix t (t ++ s) ≡ true
unfolding is_prefix
is_prefix_self [] s = refl
is_prefix_self (c ∷ t) s = ground (arith, is_prefix_self t s)

is_prefix_split : (t s : List ℕ) → is_prefix t s ≡ true → (r : List ℕ) × (s ≡ t ++ r)
unfolding is_prefix
is_prefix_split [] s h = (s, refl)
is_prefix_split (c ∷ t) [] h = cc
is_prefix_split (c ∷ t) (x ∷ s) h =
    let (r, e) = is_prefix_split t s (ground arith) in (r, ground arith)

-- `t` stands somewhere in `s`.
abbrev pub IsInfix : List ℕ → List ℕ → Type 0
IsInfix t s = (before : List ℕ) × (after : List ℕ) × (s ≡ before ++ (t ++ after))

pub contains_of_IsInfix : (t before after : List ℕ) → contains (before ++ (t ++ after)) t ≡ true
unfolding contains
contains_of_IsInfix [] [] [] = refl
contains_of_IsInfix [] [] (x ∷ after) = refl
contains_of_IsInfix (c ∷ t) [] after = ground (arith, is_prefix_self (c ∷ t) after)
contains_of_IsInfix t (x ∷ before) after = ground (arith, contains_of_IsInfix t before after)

pub IsInfix-of_contains : (s t : List ℕ) → contains s t ≡ true → IsInfix t s
unfolding contains
IsInfix-of_contains [] t h = let (r, e) = is_prefix_split t [] h in ([], r, e)
IsInfix-of_contains (x ∷ s) t h = elim (Bool-cases (is_prefix t (x ∷ s))) [
  | inl here ↦ let (r, e) = is_prefix_split t (x ∷ s) here in ([], r, e)
  | inr later ↦
      let (before, after, e) = IsInfix-of_contains s t (ground arith) in
      (x ∷ before, after, ap (◌∷◌ x) e)
]

-- The search answers true exactly when the text sought stands in the text searched.
pub contains_iff : (s t : List ℕ) → (contains s t ≡ true) ↔ IsInfix t s
contains_iff s t = (IsInfix-of_contains s t, λ (before, after, e). e_at before after e)
  where
    e_at : (before after : List ℕ) → s ≡ before ++ (t ++ after) → contains s t ≡ true
    e_at before after e = ap (λ (u : List ℕ). contains u t) e ∙ contains_of_IsInfix t before after

-- What is found is still found inside a longer text.
pub contains_around :
    (s t before after : List ℕ) → contains s t ≡ true → contains (before ++ (s ++ after)) t ≡ true
contains_around s t before after h =
    let (p, q, e) = IsInfix-of_contains s t h in
    ap (λ (u : List ℕ). contains (before ++ (u ++ after)) t) e
    ∙ (ap (λ (u : List ℕ). contains u t) (regroup p q)
        ∙ contains_of_IsInfix t (before ++ p) (q ++ after))
  where
    regroup :
        (p q : List ℕ) → before ++ ((p ++ (t ++ q)) ++ after) ≡ (before ++ p) ++ (t ++ (q ++ after))
    regroup p q = simp append_assoc
