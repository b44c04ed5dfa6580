-- ===== src/KillSwitch/Latch.antt =====
-- The switch is a latch: once armed, nothing but Disarm clears it.
use sentinel_protocol.Base.{◌≡◌, refl, ◌≢◌, true, List, [], ◌∷◌, arith, All}
use sentinel_protocol.KillSwitch.{
  KillSwitch, Event, arms, disarms, high_risk, low_risk, arm, record_high_risk, record_low_risk,
  step, run,
}

step-armed :
    (ks : KillSwitch) (e : Event) → e ≢ disarms → ks.armed ≡ true → (step ks e).armed ≡ true
unfolding step arm record_high_risk record_low_risk
step-armed ks (arms reason now) h armed = refl
step-armed ks disarms h armed = absurd (h refl)
step-armed ks (high_risk now) h armed = ground arith
step-armed ks low_risk h armed = armed

-- An armed switch stays armed through every history of calls in which nobody calls Disarm.
pub armed_until_disarmed :
    (ks : KillSwitch) (es : List Event)
    → All (λ e. e ≢ disarms) es
    → ks.armed ≡ true
    → (run ks es).armed ≡ true
unfolding run
armed_until_disarmed ks [] h armed = armed
armed_until_disarmed ks (e ∷ es) h armed =
    armed_until_disarmed (step ks e) es h.1 (step-armed ks e h.0 armed)
