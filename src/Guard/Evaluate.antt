-- ===== src/Guard/Evaluate.antt =====
-- goserver/sentinel_guard.go: Evaluate.
pub mod Rules
pub mod Detection
pub mod Fresh
use Prim.Native.String.{String}
use sentinel_protocol.Base.{
  ℕ, ◌+◌, Bool, true, false, ◌&&◌, ◌||◌, Option, none, some, List, [], ◌∷◌, ◌++◌, map, ltb,
  if◌then◌else◌, ℤ, pos, leb_ℤ,
}
use sentinel_protocol.Text.{Text, text, to_lower, has_any, join}
use sentinel_protocol.Float32
use sentinel_protocol.Float32.{Float32, whole, hundredths}
use sentinel_protocol.PolicyGate.{
  PolicyAction, allow, require_approval, block, PolicyGate, PolicyResult, check_command,
}
use sentinel_protocol.Guard.Tags.{
  Tag, prompt_injection, wallet_risk, dangerous_exec, data_exfiltration, policy_bypass,
  behavioral_detection, behavior_block, behavior_requires_approval, contains_tag, dedupe,
}
use sentinel_protocol.Guard.Config.{RiskEvaluation, SentinelGuard}

-- The three variables that `add` appends to.
pub record Tally : Type 0 where
  pub score : ℕ
  pub tags : List Tag
  pub reasons : List Text

unfoldable pub add_if : Bool → ℕ → Tag → String → Tally → Tally
add_if hit points tag reason t =
    if hit
    then record {
      score = t.score + points;
      tags = t.tags ++ tag ∷ [];
      reasons = t.reasons ++ text reason ∷ [];
    }
    else t

unfoldable pub injection_phrases : List Text
injection_phrases =
    map text
      ("ignore previous" ∷ "ignore all" ∷ "system prompt" ∷ "developer message" ∷ "bypass" ∷ [])

unfoldable pub wallet_phrases : List Text
wallet_phrases = map text (
    "private key" ∷ "seed phrase" ∷ "mnemonic" ∷ "wallet" ∷ "sign transaction" ∷ "transfer usdc"
    ∷ [])

unfoldable pub exec_phrases : List Text
exec_phrases = map text ("curl" ∷ "wget" ∷ "bash -c" ∷ "rm -rf" ∷ "chmod 777" ∷ "sudo" ∷ [])

unfoldable pub outbound_phrases : List Text
outbound_phrases =
    map text ("send to" ∷ "post to" ∷ "email" ∷ "telegram" ∷ "discord" ∷ "whatsapp" ∷ "x.com" ∷ [])

unfoldable pub bypass_phrases : List Text
bypass_phrases = map text ("disable safety" ∷ "turn off security" ∷ "no confirmation" ∷ [])

-- The five keyword rules, on the text in lower case.
unfoldable pub keyword_tally : Text → Tally
keyword_tally lower =
    let t0 : Tally = record { score = 0; tags = []; reasons = [] } in
    let t1 =
      add_if (has_any lower injection_phrases) 35 prompt_injection
        "detected instruction override pattern" t0 in
    let t2 =
      add_if (has_any lower wallet_phrases) 30 wallet_risk "wallet/credential operation requested"
        t1 in
    let t3 =
      add_if (has_any lower exec_phrases) 30 dangerous_exec "high-risk shell behavior requested"
        t2 in
    let t4 =
      add_if (has_any lower outbound_phrases) 15 data_exfiltration
        "external outbound channel detected" t3 in
    add_if (has_any lower bypass_phrases) 25 policy_bypass "explicit security bypass attempt" t4

-- int(pgResult.RiskScore*100*0.4), in float32.
unfoldable pub behavior_points : Float32 → ℕ
behavior_points risk = Float32.to_int (Float32.mul (Float32.mul risk (whole 100)) (hundredths 40))

unfoldable pub add_action : PolicyAction → Tally → Tally
add_action block t = record t {
  tags = t.tags ++ behavior_block ∷ [];
  reasons = t.reasons ++ text "behavioral policy gate blocked command" ∷ [];
}
add_action require_approval t = record t {
  tags = t.tags ++ behavior_requires_approval ∷ [];
  reasons = t.reasons ++ text "behavioral policy gate requires approval" ∷ [];
}
add_action allow t = t

-- minInt, at numbers that are not negative.
unfoldable pub min_int : ℕ → ℕ → ℕ
min_int a b = if ltb a b then a else b

unfoldable pub add_behavior : Option PolicyGate → Text → Tally → Tally
add_behavior none prompt t = t
add_behavior (some pg) prompt t =
    let result = check_command pg prompt in
    add_action result.action (record t {
      score = min_int 100 (t.score + behavior_points result.risk_score);
      tags = t.tags ++ behavioral_detection ∷ [];
    })

unfoldable pub joined_reasons : List Text → List ℕ
joined_reasons [] = text "no notable risk indicators"
joined_reasons (r ∷ rs) = join (text "; ") (r ∷ rs)

-- The decision and the result from the final tally.
unfoldable pub conclude : ℤ → Tally → RiskEvaluation
conclude threshold t =
    let score = if ltb 100 t.score then 100 else t.score in
    record {
      score = pos score;
      tags = dedupe t.tags;
      reason = joined_reasons t.reasons;
      should_block =
          leb_ℤ threshold (pos score)
          || (contains_tag t.tags policy_bypass
              || (contains_tag t.tags wallet_risk
                  || (contains_tag t.tags behavior_block
                      || (contains_tag t.tags prompt_injection
                          && contains_tag t.tags dangerous_exec))));
    }

-- The text that the rules read: the action, a line feed and the prompt, in lower case.
unfoldable pub rule_text : Text → Text → List ℕ
rule_text action prompt = to_lower (action ++ text "\n" ++ prompt)

unfoldable pub evaluate : SentinelGuard → Text → Text → RiskEvaluation
evaluate sg action prompt =
    conclude sg.cfg.risk_threshold
      (add_behavior sg.policy_gate prompt (keyword_tally (rule_text action prompt)))
