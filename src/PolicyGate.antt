-- ===== src/PolicyGate.antt =====
-- goserver/policy_gate.go: the decision that the behavioural score of a command leads to.
pub mod Decisions
use sentinel_protocol.Base.{ℕ, Bool, true, false, ◌||◌, if◌then◌else◌}
use sentinel_protocol.Text.{Text, text}
use sentinel_protocol.Float32
use sentinel_protocol.Float32.{Float32, hundredths}
use sentinel_protocol.Behavior.{
  OpType, privilege_escalation, system_modification, AgentProfile, AnomalyResult, new_agent_profile,
  detect_anomaly, record_operation,
}

pub data PolicyAction : Type 0 where
  allow require_approval block : PolicyAction

pub record PolicyResult : Type 0 where
  pub action : PolicyAction
  pub reason : Text
  pub risk_score : Float32
  pub anomaly_type : OpType
  pub needs_approval : Bool

pub record PolicyAuditEntry : Type 0 where
  pub timestamp : ℕ
  pub agent_id : Text
  pub command : Text
  pub action : PolicyAction
  pub risk_score : Float32
  pub anomaly_type : OpType
  pub reason : Text

pub record PolicyGate : Type 0 where
  pub agent_id : Text
  pub profile : AgentProfile

unfoldable pub new_policy_gate : Text → ℕ → PolicyGate
new_policy_gate agent_id now = record {
  agent_id = agent_id;
  profile = new_agent_profile agent_id now;
}

abbrev pub is_hard_class : OpType → Bool
is_hard_class privilege_escalation = true
is_hard_class system_modification = true
is_hard_class _ = false

-- The decision on an anomaly that was computed.
unfoldable pub decide_anomaly : AnomalyResult → PolicyResult
decide_anomaly anomaly =
    if Float32.le (hundredths 90) anomaly.score || is_hard_class anomaly.op_type
    then record {
      action = block;
      reason = anomaly.reason;
      risk_score = anomaly.score;
      anomaly_type = anomaly.op_type;
      needs_approval = false;
    }
    else if Float32.le (hundredths 50) anomaly.score
    then record {
      action = require_approval;
      reason = anomaly.reason;
      risk_score = anomaly.score;
      anomaly_type = anomaly.op_type;
      needs_approval = true;
    }
    else record {
      action = allow;
      reason = text "within learned behavior profile";
      risk_score = anomaly.score;
      anomaly_type = anomaly.op_type;
      needs_approval = false;
    }

unfoldable pub check_command : PolicyGate → Text → PolicyResult
check_command pg command = decide_anomaly (detect_anomaly pg.profile command)

unfoldable pub record_successful_operation : PolicyGate → Text → PolicyGate
record_successful_operation pg command = record pg { profile = record_operation pg.profile command }

unfoldable pub log_to_audit : PolicyGate → PolicyResult → Text → ℕ → PolicyAuditEntry
log_to_audit pg result command now = record {
  timestamp = now;
  agent_id = pg.agent_id;
  command = command;
  action = result.action;
  risk_score = result.risk_score;
  anomaly_type = result.anomaly_type;
  reason = result.reason;
}
