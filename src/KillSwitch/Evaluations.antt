-- ===== src/KillSwitch/Evaluations.antt =====
-- The switch under evaluations alone: it arms itself only on a full streak of high-risk ones.
use mathlib.Core.List.{append_assoc}
use sentinel_protocol.Base.{
  ℕ, ◌+◌, ◌≤◌, ◌<◌, ◌≡◌, refl, sym, subst, Bool, true, false, List, [], ◌∷◌, ◌++◌, arith, pos, leb,
  max_int64, length, length-append, map, All, All-append, Bool-cases, inl, inr,
}
use sentinel_protocol.KillSwitch.{
  KillSwitch, Event, high_risk, low_risk, record_high_risk, record_low_risk, step, run,
  new_kill_switch,
}

-- What handleGate reports of an evaluation: whether its score reached the risk threshold, and when.
abbrev pub verdict : Bool × ℕ → Event
verdict (true, now) = high_risk now
verdict (false, now) = low_risk

abbrev pub IsHigh : Bool × ℕ → Type 0
IsHigh v = v.0 ≡ true

-- Somewhere in the evaluations stand `t` in a row that are high-risk.
abbrev pub HasStreak : ℕ → List (Bool × ℕ) → Type 0
HasStreak t es =
    (before : List (Bool × ℕ)) × (row : List (Bool × ℕ)) × (after : List (Bool × ℕ)) × (es
      ≡ before ++ (row ++ after))
    × All IsHigh row
    × (length row ≡ t)

record Counts (ks : KillSwitch) (n t : ℕ) : Type 0 where
  counted : ks.consecutive_high_risk ≡ pos n
  limited : ks.threshold ≡ pos t
  open_yet : ks.armed ≡ false
  below : n < t
  limit_int : t ≤ max_int64

low-Counts :
    (ks : KillSwitch) (n t now : ℕ) → Counts ks n t → Counts (step ks (verdict (false, now))) 0 t
unfolding step record_low_risk
low-Counts ks n t now c = ground arith

high-Counts :
    (ks : KillSwitch) (n t now : ℕ)
    → Counts ks n t
    → n + 1 < t
    → Counts (step ks (verdict (true, now))) (n + 1) t
unfolding step record_high_risk
high-Counts ks n t now c h = ground arith

new-Counts : (t : ℕ) → 0 < t → t ≤ max_int64 → Counts (new_kill_switch (pos t)) 0 t
unfolding new_kill_switch
new-Counts t positive int = ground arith

length-snoc : (xs : List (Bool × ℕ)) (y : Bool × ℕ) → length (xs ++ y ∷ []) ≡ length xs + 1
length-snoc xs y = omega (arith, length-append xs (y ∷ []))

regroup :
    (past row es : List (Bool × ℕ)) (v : Bool × ℕ)
    → past ++ ((row ++ v ∷ []) ++ es) ≡ past ++ (row ++ v ∷ es)
regroup past row es v = simp append_assoc

close_row :
    (past row es : List (Bool × ℕ)) (v : Bool × ℕ)
    → (past ++ (row ++ v ∷ [])) ++ es ≡ past ++ (row ++ v ∷ es)
close_row past row es v = simp append_assoc

-- With the evaluations so far kept apart as `past ++ row`, where `row` is the current streak.
armed_needs :
    (ks : KillSwitch) (t : ℕ) (past row es : List (Bool × ℕ))
    → Counts ks (length row) t
    → All IsHigh row
    → (run ks (map verdict es)).armed ≡ true
    → HasStreak t (past ++ (row ++ es))
unfolding run
armed_needs ks t past row [] c high armed = absurd (ground arith)
armed_needs ks t past row ((false, now) ∷ es) c high armed =
    let v : Bool × ℕ = (false, now) in
    subst (HasStreak t) (close_row past row es v) (
      armed_needs (step ks (verdict v)) t (past ++ (row ++ v ∷ [])) [] es
        (low-Counts ks (length row) t now c) tt armed)
armed_needs ks t past row ((true, now) ∷ es) c high armed =
    let v : Bool × ℕ = (true, now) in
    let longer = length-snoc row v in
    let all_high : All IsHigh (row ++ v ∷ []) = All-append IsHigh row (v ∷ []) high (refl, tt) in
    elim (Bool-cases (leb t (length row + 1))) [
      | inl reached ↦ (past, row ++ v ∷ [], es, sym (regroup past row es v), all_high, ground arith)
      | inr low ↦ subst (HasStreak t) (regroup past row es v) (
          armed_needs (step ks (verdict v)) t past (row ++ v ∷ []) es
            (rw longer (high-Counts ks (length row) t now c (ground arith))) all_high armed)
    ]

-- A new switch whose threshold is a positive int, driven by evaluations alone, is armed only if as
-- many high-risk evaluations as its threshold says came in a row.
pub armed_needs_streak :
    (t : ℕ) (es : List (Bool × ℕ))
    → 0 < t
    → t ≤ max_int64
    → (run (new_kill_switch (pos t)) (map verdict es)).armed ≡ true
    → HasStreak t es
armed_needs_streak t es positive int armed =
    armed_needs (new_kill_switch (pos t)) t [] [] es (new-Counts t positive int) tt armed
