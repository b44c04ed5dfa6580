-- ===== src/KillSwitch/Counting.antt =====
-- When the switch arms itself.
use sentinel_protocol.Base.{
  ℕ, ◌+◌, ◌≤◌, ◌<◌, ◌≡◌, refl, ◌∙◌, ◌≢◌, inl, inr, true, List, [], ◌∷◌, ◌++◌, arith, pos, leb,
  max_int64, length, map, All, Bool-cases, leb→le,
}
use sentinel_protocol.KillSwitch.Latch.{armed_until_disarmed}
use sentinel_protocol.KillSwitch.{
  KillSwitch, Event, arms, disarms, high_risk, low_risk, arm, disarm, record_high_risk,
  record_low_risk, step, run,
}

-- The counter after some calls: high-risk evaluations since the last reset.
abbrev pub streak : ℕ → List Event → ℕ
streak n [] = n
streak n (arms reason now ∷ es) = streak n es
streak n (disarms ∷ es) = streak 0 es
streak n (high_risk now ∷ es) = streak (n + 1) es
streak n (low_risk ∷ es) = streak 0 es

-- The counter of the switch is the length of the current streak, as long as fewer calls were made
-- than an int can count.
pub run-streak :
    (ks : KillSwitch) (n : ℕ) (es : List Event)
    → ks.consecutive_high_risk ≡ pos n
    → n + length es ≤ max_int64
    → (run ks es).consecutive_high_risk ≡ pos (streak n es)
unfolding run step arm disarm record_high_risk record_low_risk
run-streak ks n [] h room = h
run-streak ks n (arms reason now ∷ es) h room = run-streak _ n es h (omega arith)
run-streak ks n (disarms ∷ es) h room = run-streak _ 0 es refl (omega arith)
run-streak ks n (low_risk ∷ es) h room = run-streak _ 0 es refl (omega arith)
run-streak ks n (high_risk now ∷ es) h room =
    run-streak (record_high_risk ks now) (n + 1) es (ground arith) (omega arith)

streak-le : (n : ℕ) (es : List Event) → streak n es ≤ n + length es
streak-le n [] = omega arith
streak-le n (arms reason now ∷ es) = omega (arith, streak-le n es)
streak-le n (disarms ∷ es) = omega (arith, streak-le 0 es)
streak-le n (high_risk now ∷ es) = omega (arith, streak-le (n + 1) es)
streak-le n (low_risk ∷ es) = omega (arith, streak-le 0 es)

run-append : (ks : KillSwitch) (xs ys : List Event) → run ks (xs ++ ys) ≡ run (run ks xs) ys
unfolding run
run-append ks [] ys = refl
run-append ks (x ∷ xs) ys = run-append (step ks x) xs ys

step-threshold : (ks : KillSwitch) (e : Event) → (step ks e).threshold ≡ ks.threshold
unfolding step arm disarm record_high_risk record_low_risk
step-threshold ks (arms reason now) = refl
step-threshold ks _ = ground arith

pub run-threshold : (ks : KillSwitch) (es : List Event) → (run ks es).threshold ≡ ks.threshold
unfolding run
run-threshold ks [] = refl
run-threshold ks (e ∷ es) = run-threshold (step ks e) es ∙ step-threshold ks e

abbrev pub highs : List ℕ → List Event
highs = map high_risk

highs_never_disarm : (times : List ℕ) → All (λ e. e ≢ disarms) (highs times)
highs_never_disarm [] = tt
highs_never_disarm (now ∷ times) = (λ e. cc, highs_never_disarm times)

high_arms :
    (ks : KillSwitch) (n t now : ℕ)
    → ks.consecutive_high_risk ≡ pos n
    → ks.threshold ≡ pos t
    → t ≤ n + 1
    → n < max_int64
    → (record_high_risk ks now).armed ≡ true
unfolding record_high_risk
high_arms ks n t now h k reached room = ground arith

high_counts :
    (ks : KillSwitch) (n now : ℕ)
    → ks.consecutive_high_risk ≡ pos n
    → n < max_int64
    → (record_high_risk ks now).consecutive_high_risk ≡ pos (n + 1)
unfolding record_high_risk
high_counts ks n now h room = ground arith

high_threshold : (ks : KillSwitch) (now : ℕ) → (record_high_risk ks now).threshold ≡ ks.threshold
unfolding record_high_risk
high_threshold ks now = ground arith

highs_arm :
    (ks : KillSwitch) (n t : ℕ) (times : List ℕ)
    → ks.consecutive_high_risk ≡ pos n
    → ks.threshold ≡ pos t
    → 0 < length times
    → t ≤ n + length times
    → n + length times ≤ max_int64
    → (run ks (highs times)).armed ≡ true
unfolding run step
highs_arm ks n t [] h k some_call enough room = absurd (omega arith)
highs_arm ks n t (now ∷ times) h k some_call enough room = elim (Bool-cases (leb t (n + 1))) [
  | inl reached ↦
      armed_until_disarmed (record_high_risk ks now) (highs times) (highs_never_disarm times)
        (high_arms ks n t now h k (leb→le _ _ reached) (omega arith))
  | inr low ↦
      let more : n + 1 < t = ground arith in
      highs_arm (record_high_risk ks now) (n + 1) t times (high_counts ks n now h (omega arith))
        (high_threshold ks now ∙ k) (omega arith) (omega arith) (omega arith)
]

-- As many high-risk evaluations in a row as the threshold says arm the switch, whatever calls came
-- before, and it stays armed through any calls after them but Disarm. The calls before and the
-- evaluations are fewer than an int can count.
pub streak_arms :
    (ks : KillSwitch) (n t : ℕ) (before after : List Event) (times : List ℕ)
    → ks.consecutive_high_risk ≡ pos n
    → ks.threshold ≡ pos t
    → 0 < t
    → length times ≡ t
    → n + length before + t ≤ max_int64
    → All (λ e. e ≢ disarms) after
    → (run ks (before ++ (highs times ++ after))).armed ≡ true
streak_arms ks n t before after times h k positive long room calm =
    rw (run-append ks before, run-append _ (highs times))
      (armed_until_disarmed _ after calm (
        highs_arm (run ks before) (streak n before) t times (run-streak ks n before h (omega arith))
          (run-threshold ks before ∙ k) (omega arith) (omega arith)
          (omega (arith, streak-le n before))))
