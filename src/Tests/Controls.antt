-- ===== src/Tests/Controls.antt =====
-- The kill switch and the sandbox, at concrete calls.
use sentinel_protocol.Base.{◌≡◌, ◌≢◌, refl, true, List, [], ◌∷◌, ◌++◌, pos, arith, map}
use sentinel_protocol.KillSwitch.{
  KillSwitch, new_kill_switch, record_high_risk, arm, arms, disarms, high_risk, low_risk, step, run,
}
use sentinel_protocol.KillSwitch.Counting.{streak_arms, highs}
use sentinel_protocol.KillSwitch.Evaluations.{armed_needs_streak, verdict, HasStreak}
use sentinel_protocol.Sandbox.{new_capability_sandbox, check}
use sentinel_protocol.Sandbox.Policy.{check-apply_all, Change, grants, revokes, apply_all, answer}
use sentinel_protocol.Tests.Fixtures.{ls, pay, agent}

abbrev switch : KillSwitch
switch = new_kill_switch (pos 2)

low_is_not_disarm : low_risk ≢ disarms
low_is_not_disarm e = absurd (cc)

by_hand : (run switch (arms pay 7 ∷ [])).armed ≡ true
unfolding run step arm
by_hand = refl

counter_clear : switch.consecutive_high_risk ≡ pos 0
unfolding new_kill_switch
counter_clear = refl

threshold_two : switch.threshold ≡ pos 2
unfolding new_kill_switch
threshold_two = refl

streak_arms_example :
    (run switch ((high_risk 1 ∷ low_risk ∷ []) ++ (highs (3 ∷ 4 ∷ []) ++ (low_risk ∷ [])))).armed
    ≡ true
streak_arms_example =
    streak_arms switch 0 2 (high_risk 1 ∷ low_risk ∷ []) (low_risk ∷ []) (3 ∷ 4 ∷ []) counter_clear
      threshold_two (omega arith) refl (omega arith) (low_is_not_disarm, tt)

streak_armed : (run switch (map verdict ((true, 1) ∷ (true, 2) ∷ []))).armed ≡ true
unfolding new_kill_switch run step record_high_risk
streak_armed = refl

armed_needs_streak_example : HasStreak 2 ((true, 1) ∷ (true, 2) ∷ [])
armed_needs_streak_example =
    armed_needs_streak 2 ((true, 1) ∷ (true, 2) ∷ []) (omega arith) (omega arith) streak_armed

abbrev changes : List Change
changes = grants agent pay ∷ revokes agent ls ∷ grants ls pay ∷ revokes agent pay ∷ []

check-apply_all_example :
    check (apply_all new_capability_sandbox changes) agent pay
    ≡ answer (check new_capability_sandbox agent pay) agent pay changes
check-apply_all_example = check-apply_all new_capability_sandbox changes agent pay
