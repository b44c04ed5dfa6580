-- ===== src/Guard/Evaluate/Detection.antt =====
-- How robust Evaluate is: letter case and surrounding text do not hide a phrase, and a fresh guard
-- blocks by the class of the command.
use sentinel_protocol.Base.{
  ◌≡◌, refl, sym, ap, ◌∙◌, true, Option, none, some, List, [], ◌∷◌, ◌++◌, arith, ℤ,
}
use mathlib.Core.List.{append_assoc}
use sentinel_protocol.Text.{Text, text, has_any, to_lower, trim_space}
use sentinel_protocol.Text.Case.{to_lower-append, trim_space-to_lower}
use sentinel_protocol.Text.Search.{contains_around}
use sentinel_protocol.Behavior.{detect_anomaly, normalize_op}
use sentinel_protocol.PolicyGate.{PolicyGate, check_command}
use sentinel_protocol.Guard.Tags.{
  Tag, prompt_injection, wallet_risk, dangerous_exec, data_exfiltration, policy_bypass,
  contains_tag,
}
use sentinel_protocol.Guard.Config.{RiskEvaluation, SentinelGuard}
use sentinel_protocol.Guard.Evaluate.{Tally, rule_text, evaluate, add_behavior}
use sentinel_protocol.Guard.Evaluate.Rules.{fires, blocks, evaluate-tags, evaluate_sound}

normalize_op_cong : (p q : Text) → to_lower p ≡ to_lower q → normalize_op p ≡ normalize_op q
unfolding normalize_op
normalize_op_cong p q e = sym (trim_space-to_lower p) ∙ (ap trim_space e ∙ trim_space-to_lower q)

check_command_cong :
    (pg : PolicyGate) (p q : Text)
    → to_lower p ≡ to_lower q
    → check_command pg p ≡ check_command pg q
unfolding check_command detect_anomaly
check_command_cong pg p q e = rw (normalize_op_cong p q e)

add_behavior_cong :
    (o : Option PolicyGate) (p q : Text) (t : Tally)
    → to_lower p ≡ to_lower q
    → add_behavior o p t ≡ add_behavior o q t
unfolding add_behavior
add_behavior_cong none p q t e = refl
add_behavior_cong (some pg) p q t e = rw (check_command_cong pg p q e)

rule_text_cong :
    (a b p q : Text)
    → to_lower a ≡ to_lower b
    → to_lower p ≡ to_lower q
    → rule_text a p ≡ rule_text b q
unfolding rule_text
rule_text_cong a b p q e f = simp (to_lower-append, e, f)

-- Letter case makes no difference: an action and a prompt that differ from others by case alone
-- have the same evaluation.
pub evaluate_ignores_case :
    (sg : SentinelGuard) (a b p q : Text)
    → to_lower a ≡ to_lower b
    → to_lower p ≡ to_lower q
    → evaluate sg a p ≡ evaluate sg b q
unfolding evaluate
evaluate_ignores_case sg a b p q e f =
    rw (rule_text_cong a b p q e f, add_behavior_cong sg.policy_gate p q _ f)

has_any_around :
    (s before after : Text) (needles : List Text)
    → has_any s needles ≡ true
    → has_any (before ++ (s ++ after)) needles ≡ true
unfolding has_any
has_any_around s before after [] h = cc
has_any_around s before after (n ∷ needles) h =
    ground
      (arith, contains_around s (to_lower n) before after, has_any_around s before after needles)

fires_around :
    (t : Tag) (s before after : Text) → fires t s ≡ true → fires t (before ++ (s ++ after)) ≡ true
fires_around prompt_injection s before after h = has_any_around s before after _ h
fires_around wallet_risk s before after h = has_any_around s before after _ h
fires_around dangerous_exec s before after h = has_any_around s before after _ h
fires_around data_exfiltration s before after h = has_any_around s before after _ h
fires_around policy_bypass s before after h = has_any_around s before after _ h
fires_around _ s before after h = cc

rule_text-around :
    (action before s after : Text)
    → rule_text action (before ++ (s ++ after))
      ≡ (to_lower action ++ (to_lower (text "\n") ++ to_lower before))
        ++ (to_lower s ++ to_lower after)
unfolding rule_text
rule_text-around action before s after = simp (to_lower-append, append_assoc)

blocks_of_bypass :
    (threshold : ℤ) (e : RiskEvaluation) (t : Tag)
    → contains_tag e.tags t ≡ true
    → t ≡ policy_bypass
    → blocks threshold e ≡ true
blocks_of_bypass threshold e t h same = let h' = rw same at h in ground arith

blocks_of_wallet :
    (threshold : ℤ) (e : RiskEvaluation) (t : Tag)
    → contains_tag e.tags t ≡ true
    → t ≡ wallet_risk
    → blocks threshold e ≡ true
blocks_of_wallet threshold e t h same = let h' = rw same at h in ground arith

-- No text around a phrase hides it: if a keyword rule fires on a part of the prompt, its tag is on
-- the evaluation of the whole prompt; and where the rule is that of a security bypass or of a
-- wallet operation, the prompt is blocked, whatever the threshold.
pub phrase_not_hidden :
    (sg : SentinelGuard) (action before s after : Text) (t : Tag)
    → fires t (to_lower s) ≡ true
    → let e = evaluate sg action (before ++ (s ++ after)) in
      (contains_tag e.tags t ≡ true)
      × (t ≡ policy_bypass → e.should_block ≡ true)
      × (t ≡ wallet_risk → e.should_block ≡ true)
phrase_not_hidden sg action before s after t h = (
  tagged,
  λ same.
      decided_by (blocks_of_bypass sg.cfg.risk_threshold (evaluate sg action prompt) t tagged same),
  λ same.
      decided_by (blocks_of_wallet sg.cfg.risk_threshold (evaluate sg action prompt) t tagged same),
)
  where
    prompt : Text
    prompt = before ++ (s ++ after)

    tagged : contains_tag (evaluate sg action prompt).tags t ≡ true
    tagged =
        evaluate-tags sg action prompt t
        ∙ rw (
          rule_text-around action before s after,
          fires_around t (to_lower s) _ (to_lower after) h,
        )

    decided_by :
        blocks sg.cfg.risk_threshold (evaluate sg action prompt) ≡ true
        → (evaluate sg action prompt).should_block ≡ true
    decided_by e = (evaluate_sound sg action prompt).2 ∙ e
