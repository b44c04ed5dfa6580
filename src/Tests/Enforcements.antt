-- ===== src/Tests/Enforcements.antt =====
-- Enforce, at concrete guards.
use sentinel_protocol.Base.{◌++◌, ◌∷◌, ◌⊎◌, none, some, ◌≡◌, refl, true, false, []}
use sentinel_protocol.Text.{Text, text, to_lower, contains, has_any}
use sentinel_protocol.Guard.Tags.{contains_tag}
use sentinel_protocol.Guard.Evaluate.{
  evaluate, conclude, add_behavior, keyword_tally, add_if, rule_text, injection_phrases,
  wallet_phrases, exec_phrases, outbound_phrases, bypass_phrases,
}
use sentinel_protocol.Guard.Anchor.{anchor}
use sentinel_protocol.Guard.Audit.{enforce}
use sentinel_protocol.Guard.Audit.Enforced.{Agrees, enforce-Agrees}
use sentinel_protocol.Guard.Audit.Anchoring.{closes, offered}
use sentinel_protocol.Tests.Fixtures.{ls, outside, plain_guard, closed_guard}

enforce-Agrees_example :
    let f = enforce outside closed_guard 1 ls ls [] in
    Agrees outside closed_guard.cfg f.eval f.audit
    × (((f.failure ≡ none) × (f.log ≡ [] ++ f.audit ∷ []))
        ⊎ ((e : Text) × (f.failure ≡ some e) × (f.log ≡ [])))
enforce-Agrees_example = enforce-Agrees outside closed_guard 1 ls ls []

ls_passes : (evaluate closed_guard ls ls).should_block ≡ false
unfolding evaluate conclude add_behavior keyword_tally add_if has_any contains rule_text to_lower
    text injection_phrases wallet_phrases exec_phrases outbound_phrases bypass_phrases contains_tag
ls_passes = refl

anchor_closes : closes outside closed_guard (offered outside closed_guard 1 ls ls) ≡ true
unfolding anchor
anchor_closes = refl

no_anchor : closes outside plain_guard (offered outside plain_guard 1 ls ls) ≡ false
no_anchor = refl
