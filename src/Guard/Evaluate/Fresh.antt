-- ===== src/Guard/Evaluate/Fresh.antt =====
-- The guard as NewSentinelGuard makes it: its policy gate has learned nothing, and nothing in the
-- server teaches it.
use sentinel_protocol.Base.{
  ℕ, ◌≤◌, ◌<◌, ◌≡◌, refl, Bool, true, false, Option, some, arith, if◌then◌else◌, pos, leb, leb→le,
  Fallible,
}
use sentinel_protocol.Text.{Text, is_empty}
use sentinel_protocol.Float32
use sentinel_protocol.Float32.{Float32, whole, hundredths}
use sentinel_protocol.Behavior.{
  normalize_op, classify_operation, classify_operation_with_risk, novelty_score, min_float,
  default_operation_categories, scored,
}
use sentinel_protocol.Behavior.Scores.{classify-All}
use sentinel_protocol.Behavior.Profile.{detect_anomaly-fresh}
use sentinel_protocol.PolicyGate.{PolicyAction, block, new_policy_gate}
use sentinel_protocol.PolicyGate.Decisions.{
  cold_action, fresh_gate_decides_by_class, check_command_consistent,
}
use sentinel_protocol.Guard.Tags.{
  Tag, prompt_injection, wallet_risk, dangerous_exec, data_exfiltration, policy_bypass,
  behavior_block,
}
use sentinel_protocol.Guard.Config.{SentinelConfig, AuditRecord, SentinelGuard}
use sentinel_protocol.Guard.Evaluate.{rule_text, evaluate, behavior_points}
use sentinel_protocol.Guard.Evaluate.Rules.{
  fires, gate_points, keyword_score, evaluate-tags, evaluate-score, evaluate_sound,
}

abbrev pub is_block : PolicyAction → Bool
is_block block = true
is_block _ = false

-- The most points that a fresh gate gives, by its decision.
abbrev point_limit : PolicyAction → ℕ
point_limit a = if is_block a then 40 else 24

classify-points :
    (op : Text)
    → let (t, r) = classify_operation_with_risk op in
      leb (behavior_points (novelty_score true r)) (point_limit (cold_action t)) ≡ true
unfolding default_operation_categories novelty_score min_float Float32.lt Float32.add whole
    behavior_points Float32.to_int Float32.mul
classify-points op =
    classify-All
      (λ c. leb (behavior_points (novelty_score true c.1)) (point_limit (cold_action c.0)) ≡ true)
      op refl (refl, (refl, (refl, (refl, (refl, (refl, (refl, tt)))))))

fresh_points :
    (agent_id : Text) (now : ℕ) (prompt : Text)
    → is_empty (normalize_op prompt) ≡ false
    → gate_points (some (new_policy_gate agent_id now)) prompt
      ≤ point_limit (cold_action (classify_operation (normalize_op prompt)))
unfolding new_policy_gate classify_operation scored
fresh_points agent_id now prompt words =
    rw
      (
        (check_command_consistent (new_policy_gate agent_id now) prompt).1,
        detect_anomaly-fresh agent_id now prompt words,
      )
      (leb→le _ _ (classify-points (normalize_op prompt)))

-- A prompt and an action in which no phrase of a keyword rule stands.
abbrev pub IsQuiet : Text → Text → Type 0
IsQuiet action prompt = (t : Tag) → fires t (rule_text action prompt) ≡ false

quiet_score :
    (action prompt : Text) → IsQuiet action prompt → keyword_score (rule_text action prompt) ≡ 0
unfolding keyword_score
quiet_score action prompt quiet = rw (
  quiet prompt_injection,
  quiet wallet_risk,
  quiet dangerous_exec,
  quiet data_exfiltration,
  quiet policy_bypass,
)

-- A guard whose policy gate is new.
abbrev pub fresh_guard :
    SentinelConfig → Text → ℕ → Option (AuditRecord → Fallible Text) → SentinelGuard
fresh_guard cfg agent_id now anchor = record {
  cfg = cfg;
  policy_gate = some (new_policy_gate agent_id now);
  anchor_fn = anchor;
}

-- A guard whose policy gate is fresh blocks a prompt that is not blank and on which no keyword rule
-- fires exactly when the class of the command is one that the fresh gate blocks, provided that the
-- threshold is above 40.
pub fresh_guard_decides_by_class :
    (cfg : SentinelConfig) (agent_id : Text) (now : ℕ)
    (anchor : Option (AuditRecord → Fallible Text)) (threshold : ℕ) (action prompt : Text)
    → cfg.risk_threshold ≡ pos threshold
    → 40 < threshold
    → is_empty (normalize_op prompt) ≡ false
    → IsQuiet action prompt
    → (evaluate (fresh_guard cfg agent_id now anchor) action prompt).should_block
      ≡ is_block (cold_action (classify_operation (normalize_op prompt)))
fresh_guard_decides_by_class cfg agent_id now anchor threshold action prompt limit high words
      quiet =
    let sg = fresh_guard cfg agent_id now anchor in
    let tag = evaluate-tags sg action prompt in
    let sound = (evaluate_sound sg action prompt).2 in
    let score = evaluate-score sg action prompt in
    ground (
      arith,
      tag policy_bypass,
      tag wallet_risk,
      tag behavior_block,
      tag prompt_injection,
      quiet_score action prompt quiet,
      quiet policy_bypass,
      quiet wallet_risk,
      quiet prompt_injection,
      fresh_points agent_id now prompt words,
      fresh_gate_decides_by_class agent_id now prompt words,
    )
