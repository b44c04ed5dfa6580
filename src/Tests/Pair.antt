-- ===== src/Tests/Pair.antt =====
-- Two handlers, 0 and 1, that have begun while no other has.
use sentinel_protocol.Base.{◌≡◌, sym, ◌∙◌, ap, ◌⊎◌, inl, inr, ◌≢◌, none, some, arith, ℕ, ℕ_discrete}
use sentinel_protocol.Text.{Text}
use sentinel_protocol.Gateway.{Draws}
use sentinel_protocol.Gateway.Threads.{Pc}
use sentinel_protocol.Gateway.Threads.Effects.{draws_of}

-- The draws of the two, and of no other.
pub record IsPair (threads : ℕ → Pc) (first second : Draws) : Type 0 where
  pub draws_0 : draws_of (threads 0) ≡ some first
  pub draws_1 : draws_of (threads 1) ≡ some second
  pub others : (i : ℕ) → 0 ≢ i → 1 ≢ i → draws_of (threads i) ≡ none

who_drew :
    (threads : ℕ → Pc) (first second : Draws) (i : ℕ) (d : Draws)
    → IsPair threads first second
    → draws_of (threads i) ≡ some d
    → ((0 ≡ i) × (d ≡ first)) ⊎ ((1 ≡ i) × (d ≡ second))
who_drew threads first second i d two h = elim (ℕ_discrete 0 i) [
  | yes is_0 ↦
      let drew : some d ≡ some first =
        sym h ∙ ap (λ j. draws_of (threads j)) (sym is_0) ∙ two.draws_0 in
      inl (is_0, cc)
  | no not_0 ↦ elim (ℕ_discrete 1 i) [
    | yes is_1 ↦
        let drew : some d ≡ some second =
          sym h ∙ ap (λ j. draws_of (threads j)) (sym is_1) ∙ two.draws_1 in
        inr (is_1, cc)
    | no not_1 ↦ absurd (ground (arith, two.others i not_0 not_1, h))
  ]
]

-- What is drawn differently by the two is drawn differently by every two handlers.
pub pair_apart :
    (threads : ℕ → Pc) (first second : Draws) (key : Draws → Text) (i j : ℕ) (d e : Draws)
    → IsPair threads first second
    → key first ≢ key second
    → draws_of (threads i) ≡ some d
    → draws_of (threads j) ≡ some e
    → key d ≡ key e
    → i ≡ j
pair_apart threads first second key i j d e two differ hi hj same =
    elim (who_drew threads first second i d two hi) [
      | inl (i_0, d_is) ↦ elim (who_drew threads first second j e two hj) [
        | inl (j_0, e_is) ↦ sym i_0 ∙ j_0
        | inr (j_1, e_is) ↦ absurd (differ (by_draws d_is e_is same))
      ]
      | inr (i_1, d_is) ↦ elim (who_drew threads first second j e two hj) [
        | inl (j_0, e_is) ↦ absurd (differ (sym (by_draws d_is e_is same)))
        | inr (j_1, e_is) ↦ sym i_1 ∙ j_1
      ]
    ]
  where
    by_draws : {d d' e e' : Draws} → d ≡ d' → e ≡ e' → key d ≡ key e → key d' ≡ key e'
    by_draws dd ee h = sym (ap key dd) ∙ h ∙ ap key ee
