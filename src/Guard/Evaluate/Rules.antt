-- ===== src/Guard/Evaluate/Rules.antt =====
-- What Evaluate's tags, score and decision say of the prompt.
use sentinel_protocol.Base.{
  ℕ, ◌+◌, ◌≤◌, ◌≡◌, refl, ap, ◌∙◌, Bool, true, false, ◌&&◌, ◌||◌, Option, none, some, List, [], ◌∷◌,
  ◌++◌, arith, decided, if◌then◌else◌, ℤ, pos, leb_ℤ, ltb,
}
use sentinel_protocol.Text.{Text, has_any}
use sentinel_protocol.PolicyGate.{
  PolicyAction, allow, require_approval, block, PolicyGate, check_command,
}
use sentinel_protocol.Guard.Tags.{
  Tag, prompt_injection, wallet_risk, dangerous_exec, data_exfiltration, policy_bypass,
  behavioral_detection, behavior_block, behavior_requires_approval, Tag-discrete, contains_tag,
}
use sentinel_protocol.Guard.Tags.Dedupe.{
  contains_tag-append, contains_tag-dedupe, IsDistinct, dedupe-IsDistinct,
}
use sentinel_protocol.Guard.Config.{RiskEvaluation, SentinelGuard}
use sentinel_protocol.Guard.Evaluate.{
  Tally, add_if, injection_phrases, wallet_phrases, exec_phrases, outbound_phrases, bypass_phrases,
  keyword_tally, behavior_points, add_action, min_int, add_behavior, conclude, rule_text, evaluate,
}

abbrev pub weight : Bool → ℕ → ℕ
weight hit points = if hit then points else 0

-- The score that the keyword rules give, as a sum of the weights of the rules that fire.
unfoldable pub keyword_score : Text → ℕ
keyword_score lower =
    weight (has_any lower injection_phrases) 35
    + weight (has_any lower wallet_phrases) 30
    + weight (has_any lower exec_phrases) 30
    + weight (has_any lower outbound_phrases) 15
    + weight (has_any lower bypass_phrases) 25

keyword_tally-score : (lower : Text) → (keyword_tally lower).score ≡ keyword_score lower
unfolding keyword_tally add_if keyword_score
keyword_tally-score lower = ground arith

-- The rule that adds a tag fires exactly when one of its phrases stands in the text.
abbrev pub fires : Tag → Text → Bool
fires prompt_injection lower = has_any lower injection_phrases
fires wallet_risk lower = has_any lower wallet_phrases
fires dangerous_exec lower = has_any lower exec_phrases
fires data_exfiltration lower = has_any lower outbound_phrases
fires policy_bypass lower = has_any lower bypass_phrases
fires _ lower = false

keyword_tally-tags :
    (lower : Text) (t : Tag) → contains_tag (keyword_tally lower).tags t ≡ fires t lower
unfolding keyword_tally add_if contains_tag Tag-discrete
keyword_tally-tags lower prompt_injection = ground arith
keyword_tally-tags lower wallet_risk = ground arith
keyword_tally-tags lower dangerous_exec = ground arith
keyword_tally-tags lower data_exfiltration = ground arith
keyword_tally-tags lower policy_bypass = ground arith
keyword_tally-tags lower _ = ground arith

-- The tags and the points that the policy gate adds.
abbrev action_fires : PolicyAction → Tag → Bool
action_fires block behavior_block = true
action_fires require_approval behavior_requires_approval = true
action_fires _ behavioral_detection = true
action_fires _ _ = false

abbrev pub gate_fires : Option PolicyGate → Text → Tag → Bool
gate_fires none prompt t = false
gate_fires (some pg) prompt t = action_fires (check_command pg prompt).action t

abbrev pub gate_points : Option PolicyGate → Text → ℕ
gate_points none prompt = 0
gate_points (some pg) prompt = behavior_points (check_command pg prompt).risk_score

contains_tag-snoc :
    (xs : List Tag) (y t : Tag)
    → contains_tag (xs ++ y ∷ []) t ≡ (contains_tag xs t || decided (Tag-discrete y t))
unfolding contains_tag
contains_tag-snoc xs y t = contains_tag-append xs (y ∷ []) t ∙ ground arith

gate_tag :
    (c : Bool) (t : Tag)
    → (c || decided (Tag-discrete behavioral_detection t)) ≡ (c || action_fires allow t)
unfolding Tag-discrete
gate_tag c prompt_injection = refl
gate_tag c _ = refl

block_tag :
    (c : Bool) (t : Tag)
    → ((c || action_fires allow t) || decided (Tag-discrete behavior_block t))
      ≡ (c || action_fires block t)
unfolding Tag-discrete
block_tag c prompt_injection = ground arith
block_tag c _ = ground arith

approval_tag :
    (c : Bool) (t : Tag)
    → ((c || action_fires allow t) || decided (Tag-discrete behavior_requires_approval t))
      ≡ (c || action_fires require_approval t)
unfolding Tag-discrete
approval_tag c prompt_injection = ground arith
approval_tag c _ = ground arith

add_action-tags :
    (a : PolicyAction) (score : ℕ) (tags : List Tag) (reasons : List Text) (t : Tag)
    → contains_tag
        (add_action a (record {
          score = score;
          tags = tags ++ behavioral_detection ∷ [];
          reasons = reasons;
        })).tags
        t
      ≡ (contains_tag tags t || action_fires a t)
unfolding add_action
add_action-tags block score tags reasons t =
    rw (contains_tag-snoc, contains_tag-snoc, gate_tag) (block_tag (contains_tag tags t) t)
add_action-tags require_approval score tags reasons t =
    rw (contains_tag-snoc, contains_tag-snoc, gate_tag) (approval_tag (contains_tag tags t) t)
add_action-tags allow score tags reasons t = rw contains_tag-snoc (gate_tag (contains_tag tags t) t)

add_action-score : (a : PolicyAction) (tally : Tally) → (add_action a tally).score ≡ tally.score
unfolding add_action
add_action-score block tally = refl
add_action-score require_approval tally = refl
add_action-score allow tally = refl

add_behavior-tags :
    (o : Option PolicyGate) (prompt : Text) (tally : Tally) (t : Tag)
    → contains_tag (add_behavior o prompt tally).tags t
      ≡ (contains_tag tally.tags t || gate_fires o prompt t)
unfolding add_behavior
add_behavior-tags none prompt tally t = ground arith
add_behavior-tags (some pg) prompt tally t =
    add_action-tags (check_command pg prompt).action _ tally.tags tally.reasons t

abbrev capped : ℕ → ℕ
capped n = if ltb 100 n then 100 else n

add_behavior-score :
    (o : Option PolicyGate) (prompt : Text) (tally : Tally)
    → capped (add_behavior o prompt tally).score ≡ capped (tally.score + gate_points o prompt)
unfolding add_behavior min_int
add_behavior-score none prompt tally = ground arith
add_behavior-score (some pg) prompt tally = rw add_action-score (ground arith)

-- A tag is on the result exactly when its rule fires: a phrase of the rule stands in the action or
-- the prompt, or the policy gate decides so.
pub evaluate-tags :
    (sg : SentinelGuard) (action prompt : Text) (t : Tag)
    → contains_tag (evaluate sg action prompt).tags t
      ≡ (fires t (rule_text action prompt) || gate_fires sg.policy_gate prompt t)
unfolding evaluate conclude
evaluate-tags sg action prompt t =
    contains_tag-dedupe _ t
    ∙ (add_behavior-tags sg.policy_gate prompt (keyword_tally (rule_text action prompt)) t
        ∙ ap (λ (b : Bool). b || gate_fires sg.policy_gate prompt t)
            (keyword_tally-tags (rule_text action prompt) t))

-- The score is the sum of the weights of the rules that fire and the points of the policy gate,
-- capped at 100.
pub evaluate-score :
    (sg : SentinelGuard) (action prompt : Text)
    → (evaluate sg action prompt).score
      ≡ pos (capped (keyword_score (rule_text action prompt) + gate_points sg.policy_gate prompt))
unfolding evaluate conclude
evaluate-score sg action prompt = ap pos (
    add_behavior-score sg.policy_gate prompt (keyword_tally (rule_text action prompt))
    ∙ ap (λ (n : ℕ). capped (n + gate_points sg.policy_gate prompt))
        (keyword_tally-score (rule_text action prompt)))

-- The decision, read off the result: the score reaches the threshold, or a tag stands on it that
-- blocks by itself, or injection and dangerous execution stand on it together.
abbrev pub blocks : ℤ → RiskEvaluation → Bool
blocks threshold e =
    leb_ℤ threshold e.score
    || (contains_tag e.tags policy_bypass
        || (contains_tag e.tags wallet_risk
            || (contains_tag e.tags behavior_block
                || (contains_tag e.tags prompt_injection && contains_tag e.tags dangerous_exec))))

conclude-blocks :
    (threshold : ℤ) (t : Tally)
    → (conclude threshold t).should_block ≡ blocks threshold (conclude threshold t)
unfolding conclude
conclude-blocks threshold t = simp contains_tag-dedupe

conclude-IsDistinct : (threshold : ℤ) (t : Tally) → IsDistinct (conclude threshold t).tags
unfolding conclude
conclude-IsDistinct threshold t = dedupe-IsDistinct t.tags

-- Evaluate gives a score from 0 to 100 and no tag twice, and it blocks exactly when its own score
-- and tags say so.
pub evaluate_sound :
    (sg : SentinelGuard) (action prompt : Text)
    → let e = evaluate sg action prompt in
      ((n : ℕ) × (e.score ≡ pos n) × (n ≤ 100))
      × IsDistinct e.tags
      × (e.should_block ≡ blocks sg.cfg.risk_threshold e)
unfolding evaluate
evaluate_sound sg action prompt = (
  (
    capped (keyword_score (rule_text action prompt) + gate_points sg.policy_gate prompt),
    evaluate-score sg action prompt,
    ground arith,
  ),
  conclude-IsDistinct _ _,
  conclude-blocks _ _,
)
