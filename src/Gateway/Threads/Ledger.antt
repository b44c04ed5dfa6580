-- ===== src/Gateway/Threads/Ledger.antt =====
-- What the handlers together promise of tokens, without handlers, clocks and maps: a ledger in which
-- an identifier is granted once and then executed once.
use sentinel_protocol.Base.{
  ℕ, ◌≡◌, refl, sym, ◌∙◌, ◌⊎◌, inl, inr, Bool, true, false, Option, none, some, arith, ℕ_discrete,
  ite, ap,
}
use sentinel_protocol.Text.{Text, Text-discrete}

-- What became of an identifier.
pub data Standing : Type 0 where
  unknown : Standing
  granted : Standing
  executed : Standing

-- The standing of every identifier, and what each handler handed out and executed.
pub record Ledger : Type 0 where
  pub standing : Text → Standing
  pub handed : ℕ → Option Text
  pub ran : ℕ → Option Text

-- The entries: an identifier that is unknown is granted by a handler that has handed out nothing,
-- or one that is granted is executed by a handler that has executed nothing.
pub data Post (old new : Ledger) : Type 0 where
  keeps :
      ((id : Text) → new.standing id ≡ old.standing id)
      → ((j : ℕ) → new.handed j ≡ old.handed j)
      → ((j : ℕ) → new.ran j ≡ old.ran j)
      → Post old new
  hands :
      (i : ℕ) (id : Text)
      → old.standing id ≡ unknown
      → old.handed i ≡ none
      → ((other : Text)
          → new.standing other ≡ ite (Text-discrete id other) granted (old.standing other))
      → ((j : ℕ) → new.handed j ≡ ite (ℕ_discrete i j) (some id) (old.handed j))
      → ((j : ℕ) → new.ran j ≡ old.ran j)
      → Post old new
  runs :
      (i : ℕ) (id : Text)
      → old.standing id ≡ granted
      → old.ran i ≡ none
      → ((other : Text)
          → new.standing other ≡ ite (Text-discrete id other) executed (old.standing other))
      → ((j : ℕ) → new.handed j ≡ old.handed j)
      → ((j : ℕ) → new.ran j ≡ ite (ℕ_discrete i j) (some id) (old.ran j))
      → Post old new

-- The ledgers that entries make from an empty one.
pub data Kept : Ledger → Type 0 where
  opens : Kept (record { standing = λ id. unknown; handed = λ i. none; ran = λ i. none })
  posts : {old new : Ledger} → Kept old → Post old new → Kept new

abbrev pub is_known : Standing → Bool
is_known unknown = false
is_known granted = true
is_known executed = true

-- What a ledger is trusted for: one handler hands out an identifier and one executes it, and what is
-- executed was handed out.
pub record IsSound (l : Ledger) : Type 0 where
  pub known : (i : ℕ) (id : Text) → l.handed i ≡ some id → is_known (l.standing id) ≡ true
  pub spent : (j : ℕ) (id : Text) → l.ran j ≡ some id → l.standing id ≡ executed
  pub source : (id : Text) → is_known (l.standing id) ≡ true → (i : ℕ) × (l.handed i ≡ some id)
  pub one_hands : (i j : ℕ) (id : Text) → l.handed i ≡ some id → l.handed j ≡ some id → i ≡ j
  pub one_runs : (i j : ℕ) (id : Text) → l.ran i ≡ some id → l.ran j ≡ some id → i ≡ j

looked_up :
    (f g : ℕ → Option Text) (i : ℕ) (new : Text) (j : ℕ) (id : Text)
    → g j ≡ ite (ℕ_discrete i j) (some new) (f j)
    → g j ≡ some id
    → ((i ≡ j) × (new ≡ id)) ⊎ (f j ≡ some id)
looked_up f g i new j id at h = elim (ℕ_discrete i j) [
  | yes same ↦ inl (same, ground arith)
  | no apart ↦ inr (ground arith)
]

-- An entry of one handler leaves what the handlers before it entered.
entered_stays :
    (f g : ℕ → Option Text) (i : ℕ) (new : Text) (j : ℕ) (id : Text)
    → f i ≡ none
    → g j ≡ ite (ℕ_discrete i j) (some new) (f j)
    → f j ≡ some id
    → g j ≡ some id
entered_stays f g i new j id free at h = elim (ℕ_discrete i j) [
  | yes same ↦ let taken : f i ≡ some id = rw same h in absurd (ground (arith, free, taken))
  | no apart ↦ ground arith
]

entered_at :
    (f g : ℕ → Option Text) (i : ℕ) (new : Text)
    → g i ≡ ite (ℕ_discrete i i) (some new) (f i)
    → g i ≡ some new
entered_at f g i new at = elim (ℕ_discrete i i) [
  | yes same ↦ ground arith
  | no apart ↦ absurd (apart refl)
]

-- Two handlers with one entry are one, if the new entry was in no handler's.
one_enters :
    (f g : ℕ → Option Text) (i : ℕ) (new : Text)
    → ((k : ℕ) → g k ≡ ite (ℕ_discrete i k) (some new) (f k))
    → ((k : ℕ) → f k ≡ some new → ⊥)
    → ((j k : ℕ) (id : Text) → f j ≡ some id → f k ≡ some id → j ≡ k)
    → (j k : ℕ) (id : Text) → g j ≡ some id
    → g k ≡ some id
    → j ≡ k
one_enters f g i new at fresh once j k id hj hk = elim (looked_up f g i new j id (at j) hj) [
  | inl (i_j, same) ↦ elim (looked_up f g i new k id (at k) hk) [
    | inl (i_k, _) ↦ sym i_j ∙ i_k
    | inr before ↦ absurd (fresh k (before ∙ ap some (sym same)))
  ]
  | inr bj ↦ elim (looked_up f g i new k id (at k) hk) [
    | inl (i_k, same) ↦ absurd (fresh j (bj ∙ ap some (sym same)))
    | inr bk ↦ once j k id bj bk
  ]
]

-- The standing of identifiers after an entry on one of them.
becomes :
    (f g : Text → Standing) (id : Text) (new : Standing) (other : Text)
    → g other ≡ ite (Text-discrete id other) new (f other)
    → id ≡ other
    → g other ≡ new
becomes f g id new other at same = elim (Text-discrete id other) [
  | yes e ↦ ground arith
  | no apart ↦ absurd (apart same)
]

still_known :
    (f g : Text → Standing) (id : Text) (new : Standing) (other : Text)
    → g other ≡ ite (Text-discrete id other) new (f other)
    → is_known new ≡ true
    → is_known (f other) ≡ true
    → is_known (g other) ≡ true
still_known f g id new other at known was = elim (Text-discrete id other) [
  | yes e ↦ ground (arith, at, known)
  | no apart ↦ ground (arith, at, was)
]

Post-IsSound : {old new : Ledger} → Post old new → IsSound old → IsSound new
Post-IsSound {old} {new} (keeps standing handed ran) s = record {
  known = λ i id h. ap is_known (standing id) ∙ s.known i id (sym (handed i) ∙ h);
  spent = λ j id h. standing id ∙ s.spent j id (sym (ran j) ∙ h);
  source =
      λ id h. let (i, by) = s.source id (sym (ap is_known (standing id)) ∙ h) in (i, handed i ∙ by);
  one_hands = λ i j id hi hj. s.one_hands i j id (sym (handed i) ∙ hi) (sym (handed j) ∙ hj);
  one_runs = λ i j id hi hj. s.one_runs i j id (sym (ran i) ∙ hi) (sym (ran j) ∙ hj);
}
Post-IsSound {old} {new} (hands i id free first standing handed ran) s = record {
  known = λ k other h. elim (looked_up old.handed new.handed i id k other (handed k) h) [
    | inl (_, same) ↦
        ap is_known (becomes old.standing new.standing id granted other (standing other) same)
    | inr before ↦
        still_known old.standing new.standing id granted other (standing other) refl
          (s.known k other before)
  ];
  spent = λ k other h.
      let was = s.spent k other (sym (ran k) ∙ h) in
      elim (Text-discrete id other) [
        | yes same ↦
            let now : old.standing id ≡ executed = ap old.standing same ∙ was in
            absurd (ground (arith, now, free))
        | no apart ↦ ground (arith, standing other, was)
      ];
  source = λ other h. elim (Text-discrete id other) [
    | yes same ↦ (i, entered_at old.handed new.handed i id (handed i) ∙ ap some same)
    | no apart ↦
        let (k, by) = s.source other (ground (arith, standing other, h)) in
        (k, entered_stays old.handed new.handed i id k other first (handed k) by)
  ];
  one_hands =
      one_enters old.handed new.handed i id handed
        (λ k h. absurd (ground (arith, s.known k id h, free))) s.one_hands;
  one_runs = λ j k other hj hk. s.one_runs j k other (sym (ran j) ∙ hj) (sym (ran k) ∙ hk);
}
Post-IsSound {old} {new} (runs i id open_yet first standing handed ran) s = record {
  known = λ k other h.
      still_known old.standing new.standing id executed other (standing other) refl
        (s.known k other (sym (handed k) ∙ h));
  spent = λ k other h. elim (looked_up old.ran new.ran i id k other (ran k) h) [
    | inl (_, same) ↦ becomes old.standing new.standing id executed other (standing other) same
    | inr before ↦ elim (Text-discrete id other) [
      | yes e ↦ ground (arith, standing other)
      | no apart ↦ ground (arith, standing other, s.spent k other before)
    ]
  ];
  source = λ other h. elim (Text-discrete id other) [
    | yes same ↦
        let was : is_known (old.standing other) ≡ true =
          ap (λ o. is_known (old.standing o)) (sym same) ∙ ap is_known open_yet in
        let (k, by) = s.source other was in (k, handed k ∙ by)
    | no apart ↦
        let (k, by) = s.source other (ground (arith, standing other, h)) in (k, handed k ∙ by)
  ];
  one_hands = λ j k other hj hk. s.one_hands j k other (sym (handed j) ∙ hj) (sym (handed k) ∙ hk);
  one_runs =
      one_enters old.ran new.ran i id ran (λ k h. absurd (ground (arith, s.spent k id h, open_yet)))
        s.one_runs;
}

-- A ledger that was kept is sound.
pub Kept-IsSound : {l : Ledger} → Kept l → IsSound l
Kept-IsSound opens = record {
  known = λ i id h. absurd (ground (arith, h));
  spent = λ i id h. absurd (ground (arith, h));
  source = λ id h. absurd (ground (arith, h));
  one_hands = λ i j id h. absurd (ground (arith, h));
  one_runs = λ i j id h. absurd (ground (arith, h));
}
Kept-IsSound (posts before p) = Post-IsSound p (Kept-IsSound before)
