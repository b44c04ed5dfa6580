-- ===== src/PolicyGate/Decisions.antt =====
-- What the policy gate decides: from a fresh profile, from one that has learned the command, and on
-- hard-blocked patterns.
use sentinel_protocol.Base.{
  ℕ, true, false, ◌||◌, ◌≡◌, refl, ◌↔◌, List, ◌∷◌, ◌++◌, arith, if◌then◌else◌,
}
use sentinel_protocol.Text.{Text, contains, is_empty}
use sentinel_protocol.Float32
use sentinel_protocol.Float32.{Float32, hundredths, whole}
use sentinel_protocol.Behavior.{
  OpType, financial, privilege_escalation, system_modification, data_exfiltration, file_management,
  code_editing, api_call, unknown, classify_operation, classify_operation_with_risk,
  default_operation_categories, normalize_op, novelty_score, scored, min_float, set_never_ops,
  detect_anomaly,
}
use sentinel_protocol.Behavior.Scores.{classify-All}
use sentinel_protocol.Behavior.Profile.{detect_anomaly-fresh, never_ops_flagged}
use sentinel_protocol.PolicyGate.{
  PolicyAction, allow, require_approval, block, PolicyGate, new_policy_gate, decide_anomaly,
  check_command, is_hard_class,
}

-- The decision for each class while nothing has been learned.
abbrev pub cold_action : OpType → PolicyAction
cold_action financial = block
cold_action privilege_escalation = block
cold_action system_modification = block
cold_action data_exfiltration = block
cold_action file_management = allow
cold_action code_editing = allow
cold_action api_call = require_approval
cold_action unknown = require_approval

abbrev cold_decision : OpType × Float32 → PolicyAction
cold_decision (t, r) =
    if Float32.le (hundredths 90) (novelty_score true r) || is_hard_class t
    then block
    else if Float32.le (hundredths 50) (novelty_score true r)
    then require_approval
    else allow

classify-cold :
    (op : Text)
    → cold_decision (classify_operation_with_risk op)
      ≡ cold_action (classify_operation_with_risk op).0
unfolding default_operation_categories novelty_score min_float Float32.le Float32.lt Float32.add
    whole
classify-cold op =
    classify-All (λ c. cold_decision c ≡ cold_action c.0) op refl
      (refl, (refl, (refl, (refl, (refl, (refl, (refl, tt)))))))

abbrev decision : Float32 → OpType → PolicyAction
decision score t =
    if Float32.le (hundredths 90) score || is_hard_class t
    then block
    else if Float32.le (hundredths 50) score
    then require_approval
    else allow

decide_anomaly-scored :
    (score : Float32) (reason : Text) (t : OpType)
    → (decide_anomaly (scored score reason t)).action ≡ decision score t
unfolding decide_anomaly scored
decide_anomaly-scored score reason t = ground arith

-- A gate that has learned nothing decides by the class of the command alone.
pub fresh_gate_decides_by_class :
    (agent_id : Text) (now : ℕ) (command : Text)
    → is_empty (normalize_op command) ≡ false
    → (check_command (new_policy_gate agent_id now) command).action
      ≡ cold_action (classify_operation (normalize_op command))
unfolding check_command new_policy_gate classify_operation
fresh_gate_decides_by_class agent_id now command words =
    rw (detect_anomaly-fresh agent_id now command words, decide_anomaly-scored)
      (classify-cold (normalize_op command))

-- The gate flags a result as needing approval exactly when it asks for approval, and passes the
-- detector's score on.
pub check_command_consistent :
    (pg : PolicyGate) (command : Text)
    → ((check_command pg command).needs_approval ≡ true
        ↔ (check_command pg command).action ≡ require_approval)
      × ((check_command pg command).risk_score ≡ (detect_anomaly pg.profile command).score)
unfolding check_command decide_anomaly
check_command_consistent pg command = ((λ h. ground arith, λ h. ground arith), ground arith)

-- A command in which a pattern given to SetNeverOps stands, one that is not blank, is blocked,
-- whatever was learned.
pub never_ops_blocked :
    (pg : PolicyGate) (before after : List Text) (op command : Text)
    → is_empty (normalize_op op) ≡ false
    → contains (normalize_op command) (normalize_op op) ≡ true
    → (check_command
        (record pg { profile = set_never_ops pg.profile (before ++ op ∷ after) })
        command).action
      ≡ block
unfolding check_command decide_anomaly Float32.le hundredths
never_ops_blocked pg before after op command words h =
    rw ((never_ops_flagged pg.profile before after op command words h).0) refl
