-- ===== src/Guard/Tags.antt =====
-- goserver/sentinel_guard.go: the tags of an evaluation, containsTag and dedupe.
pub mod Dedupe
use sentinel_protocol.Base.{ℕ, Bool, true, false, List, [], ◌∷◌, decided, if◌then◌else◌}
use sentinel_protocol.Text.{text}

pub data Tag : Type 0 where
  prompt_injection wallet_risk dangerous_exec data_exfiltration policy_bypass : Tag
  behavioral_detection behavior_block behavior_requires_approval anchor_failure : Tag

unfoldable pub Tag-discrete : Discrete Tag
Tag-discrete = hlevel

-- The source's spelling of a tag.
unfoldable pub tag_text : Tag → List ℕ
tag_text prompt_injection = text "prompt_injection"
tag_text wallet_risk = text "wallet_risk"
tag_text dangerous_exec = text "dangerous_exec"
tag_text data_exfiltration = text "data_exfiltration"
tag_text policy_bypass = text "policy_bypass"
tag_text behavioral_detection = text "behavioral_detection"
tag_text behavior_block = text "behavior_block"
tag_text behavior_requires_approval = text "behavior_requires_approval"
tag_text anchor_failure = text "anchor_failure"

unfoldable pub contains_tag : List Tag → Tag → Bool
contains_tag [] target = false
contains_tag (t ∷ tags) target =
    if decided (Tag-discrete t target) then true else contains_tag tags target

-- The loop of dedupe: `seen` holds the values met so far.
unfoldable pub dedupe_from : List Tag → List Tag → List Tag
dedupe_from seen [] = []
dedupe_from seen (v ∷ values) =
    if contains_tag seen v then dedupe_from seen values else v ∷ dedupe_from (v ∷ seen) values

unfoldable pub dedupe : List Tag → List Tag
dedupe values = dedupe_from [] values
