-- ===== src/KillSwitch.antt =====
-- goserver/sentinel_controls.go: the kill switch. Each method holds the lock for all of its body, so
-- it is one step; the clock is an argument, counted from the zero time, so that the zero time is 0.
pub mod Latch
pub mod Counting
pub mod Evaluations
use sentinel_protocol.Base.{
  ℕ, Bool, true, false, not, ◌&&◌, List, [], ◌∷◌, if◌then◌else◌, ℤ, pos, leb_ℤ, increment,
}
use sentinel_protocol.Text.{Text, text}

pub record KillSwitch : Type 0 where
  pub armed : Bool
  pub consecutive_high_risk : ℤ
  pub threshold : ℤ
  pub armed_at : ℕ
  pub reason : Text

pub record KillSwitchStatus : Type 0 where
  pub armed : Bool
  pub reason : Text
  pub armed_at : ℕ
  pub consecutive_high_risk : ℤ
  pub threshold : ℤ

unfoldable pub new_kill_switch : ℤ → KillSwitch
new_kill_switch threshold = record {
  armed = false;
  consecutive_high_risk = pos 0;
  threshold = if leb_ℤ threshold (pos 0) then pos 3 else threshold;
  armed_at = 0;
  reason = [];
}

unfoldable pub arm : KillSwitch → Text → ℕ → KillSwitch
arm ks reason now = record ks { armed = true; armed_at = now; reason = reason }

unfoldable pub disarm : KillSwitch → KillSwitch
disarm ks = record ks { armed = false; reason = []; armed_at = 0; consecutive_high_risk = pos 0 }

unfoldable pub is_armed : KillSwitch → Bool
is_armed ks = ks.armed

unfoldable pub record_high_risk : KillSwitch → ℕ → KillSwitch
record_high_risk ks now =
    let count = increment ks.consecutive_high_risk in
    let counted = record ks { consecutive_high_risk = count } in
    if leb_ℤ ks.threshold count && not ks.armed
    then record counted {
      armed = true;
      armed_at = now;
      reason = text "auto-armed: consecutive high-risk threshold reached";
    }
    else counted

unfoldable pub record_low_risk : KillSwitch → KillSwitch
record_low_risk ks = record ks { consecutive_high_risk = pos 0 }

unfoldable pub status : KillSwitch → KillSwitchStatus
status ks = record {
  armed = ks.armed;
  reason = ks.reason;
  armed_at = ks.armed_at;
  consecutive_high_risk = ks.consecutive_high_risk;
  threshold = ks.threshold;
}

-- The calls that change the switch, each with its reading of the clock.
pub data Event : Type 0 where
  arms : Text → ℕ → Event
  disarms : Event
  high_risk : ℕ → Event
  low_risk : Event

unfoldable pub step : KillSwitch → Event → KillSwitch
step ks (arms reason now) = arm ks reason now
step ks disarms = disarm ks
step ks (high_risk now) = record_high_risk ks now
step ks low_risk = record_low_risk ks

unfoldable pub run : KillSwitch → List Event → KillSwitch
run ks [] = ks
run ks (e ∷ es) = run (step ks e) es
