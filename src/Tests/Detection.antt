-- ===== src/Tests/Detection.antt =====
-- The detector, the policy gate and the rules, at concrete commands.
use sentinel_protocol.Base.{ℕ, ◌≤◌, ◌≡◌, refl, true, false, none, [], ◌∷◌, ◌++◌, pos, arith}
use mathlib.Core.List.{Permᴰ}
use sentinel_protocol.Behavior.Summary.{get_profile_summary, get_profile_summary_ignores_order}
use sentinel_protocol.Text.{Text, text, to_lower, contains, is_empty, has_any}
use sentinel_protocol.Behavior.{
  AgentProfile, new_agent_profile, normalize_op, detect_anomaly, classify_operation, set_never_ops,
  matching_never_op, count_of, running,
}
use sentinel_protocol.Behavior.Scores.{IsCoherent, detect_anomaly-IsCoherent}
use sentinel_protocol.Behavior.Calm.{record_all, recorded_is_calm}
use sentinel_protocol.PolicyGate.{PolicyGate, new_policy_gate, check_command, block}
use sentinel_protocol.PolicyGate.Decisions.{cold_action, never_ops_blocked}
use sentinel_protocol.Guard.Tags.{
  contains_tag, policy_bypass, wallet_risk, prompt_injection, dangerous_exec, data_exfiltration,
}
use sentinel_protocol.Guard.Tags.Dedupe.{IsDistinct}
use sentinel_protocol.Guard.Evaluate.{
  evaluate, rule_text, injection_phrases, wallet_phrases, exec_phrases, outbound_phrases,
  bypass_phrases,
}
use sentinel_protocol.Guard.Evaluate.Rules.{evaluate_sound, blocks, fires}
use sentinel_protocol.Guard.Evaluate.Detection.{evaluate_ignores_case, phrase_not_hidden}
use sentinel_protocol.Guard.Evaluate.Fresh.{
  fresh_guard, IsQuiet, is_block, fresh_guard_decides_by_class,
}
use sentinel_protocol.Tests.Fixtures.{ls, pay, agent, config, plain_guard}

-- "LS".
abbrev ls_upper : Text
ls_upper = 76 ∷ 83 ∷ []

abbrev profile : AgentProfile
profile = new_agent_profile agent 0

ls_is_not_blank : is_empty (normalize_op ls) ≡ false
unfolding running
ls_is_not_blank = refl

detect_anomaly-IsCoherent_example : IsCoherent (detect_anomaly profile ls)
detect_anomaly-IsCoherent_example = detect_anomaly-IsCoherent profile ls

ls_unseen : count_of (normalize_op ls) profile.typical_ops ≡ pos 0
unfolding running
ls_unseen = refl

ls_not_blocked : matching_never_op (normalize_op ls) profile.never_ops ≡ none
unfolding running
ls_not_blocked = refl

recorded_is_calm_example :
    (detect_anomaly (record_all profile (ls ∷ pay ∷ agent ∷ [])) ls).is_anomaly ≡ false
recorded_is_calm_example =
    recorded_is_calm profile ls (pay ∷ agent ∷ []) 0 ls_is_not_blank ls_unseen (omega arith)
      ls_not_blocked

ls_in_ls : contains (normalize_op ls_upper) (normalize_op ls) ≡ true
unfolding running
ls_in_ls = refl

abbrev gate : PolicyGate
gate = new_policy_gate agent 0

never_ops_blocked_example :
    (check_command
      (record gate { profile = set_never_ops gate.profile ((pay ∷ []) ++ ls ∷ []) })
      ls_upper).action
    ≡ block
never_ops_blocked_example =
    never_ops_blocked gate (pay ∷ []) [] ls ls_upper ls_is_not_blank ls_in_ls

evaluate_sound_example :
    let e = evaluate plain_guard ls pay in
    ((n : ℕ) × (e.score ≡ pos n) × (n ≤ 100))
    × IsDistinct e.tags
    × (e.should_block ≡ blocks config.risk_threshold e)
evaluate_sound_example = evaluate_sound plain_guard ls pay

same_lower : to_lower ls_upper ≡ to_lower ls
unfolding to_lower
same_lower = refl

evaluate_ignores_case_example : evaluate plain_guard ls_upper pay ≡ evaluate plain_guard ls pay
evaluate_ignores_case_example =
    evaluate_ignores_case plain_guard ls_upper ls pay pay same_lower refl

abbrev bypass : Text
bypass = text "Disable Safety"

bypass-fires : fires policy_bypass (to_lower bypass) ≡ true
unfolding text to_lower has_any contains bypass_phrases
bypass-fires = refl

phrase_not_hidden_example :
    let e = evaluate plain_guard pay (ls ++ (bypass ++ ls)) in
    (contains_tag e.tags policy_bypass ≡ true)
    × (policy_bypass ≡ policy_bypass → e.should_block ≡ true)
    × (policy_bypass ≡ wallet_risk → e.should_block ≡ true)
phrase_not_hidden_example =
    phrase_not_hidden plain_guard pay ls bypass ls policy_bypass bypass-fires

ls-IsQuiet : IsQuiet ls ls
unfolding text to_lower has_any contains rule_text injection_phrases wallet_phrases exec_phrases
    outbound_phrases bypass_phrases
ls-IsQuiet prompt_injection = refl
ls-IsQuiet wallet_risk = refl
ls-IsQuiet dangerous_exec = refl
ls-IsQuiet data_exfiltration = refl
ls-IsQuiet policy_bypass = refl
ls-IsQuiet _ = refl

fresh_guard_decides_by_class_example :
    (evaluate (fresh_guard config agent 0 none) ls ls).should_block
    ≡ is_block (cold_action (classify_operation (normalize_op ls)))
fresh_guard_decides_by_class_example =
    fresh_guard_decides_by_class config agent 0 none 70 ls ls refl (omega arith) ls_is_not_blank
      ls-IsQuiet

-- A walk over the operations of a profile that finds the second first.
get_profile_summary_ignores_order_example :
    let learned = record profile { typical_ops = (ls, pos 2) ∷ (pay, pos 1) ∷ [] } in
    get_profile_summary (record learned { typical_ops = (pay, pos 1) ∷ (ls, pos 2) ∷ [] })
    ≡ get_profile_summary learned
get_profile_summary_ignores_order_example =
    get_profile_summary_ignores_order
      (record profile { typical_ops = (ls, pos 2) ∷ (pay, pos 1) ∷ [] })
      ((pay, pos 1) ∷ (ls, pos 2) ∷ []) (Permᴰ.swap refl refl)
