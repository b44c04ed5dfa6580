-- ===== src/Guard/Config.antt =====
-- goserver/sentinel_guard.go: the configuration, the evaluation, the audit record and the guard.
use sentinel_protocol.Base.{
  ℕ, Bool, true, false, Option, none, some, List, ℤ, pos, if◌then◌else◌, Fallible,
}
use sentinel_protocol.Text.{Text, text, is_empty}
use sentinel_protocol.PolicyGate.{PolicyGate, new_policy_gate}
use sentinel_protocol.Guard.Tags.{Tag}

pub record SentinelConfig : Type 0 where
  pub enabled : Bool
  pub risk_threshold : ℤ
  pub audit_log_path : Text
  pub anchor_enabled : Bool
  pub anchor_fail_closed : Bool
  pub anchor_package : Text
  pub anchor_module : Text
  pub anchor_func : Text
  pub anchor_registry : Text
  pub hash_cli_path : Text
  pub sign_cli_path : Text
  pub sign_priv_key : Text

pub record RiskEvaluation : Type 0 where
  pub score : ℤ
  pub tags : List Tag
  pub reason : Text
  pub should_block : Bool

pub data RecordDecision : Type 0 where
  undecided blocked allowed : RecordDecision

-- The source's spelling of a decision; the field is empty until it is set.
unfoldable pub decision_text : RecordDecision → List ℕ
decision_text undecided = text ""
decision_text blocked = text "blocked"
decision_text allowed = text "allowed"

pub record AuditRecord : Type 0 where
  pub timestamp : ℕ
  pub action : Text
  pub prompt : Text
  pub score : ℤ
  pub tags : List Tag
  pub decision : RecordDecision
  pub reason : Text
  pub record_hash : Text
  pub signature : Text
  pub public_key : Text
  pub tx_digest : Text
  pub anchor_error : Text

-- The function that anchors a record returns the digest of its transaction, or an error.
pub record SentinelGuard : Type 0 where
  pub cfg : SentinelConfig
  pub policy_gate : Option PolicyGate
  pub anchor_fn : Option (AuditRecord → Fallible Text)

unfoldable pub or_default : Text → Text → Text
or_default s fallback = if is_empty s then fallback else s

abbrev is_zero : ℤ → Bool
is_zero (pos ℕ.zero) = true
is_zero _ = false

unfoldable pub with_defaults : SentinelConfig → SentinelConfig
with_defaults cfg =
    let hash_path = or_default cfg.hash_cli_path (text "../rustcli/target/release/lazarus-vault") in
    record cfg {
      risk_threshold = if is_zero cfg.risk_threshold then pos 70 else cfg.risk_threshold;
      audit_log_path = or_default cfg.audit_log_path (text "./audit/sentinel-audit.jsonl");
      anchor_module = or_default cfg.anchor_module (text "sentinel_audit");
      anchor_func = or_default cfg.anchor_func (text "record_audit");
      hash_cli_path = hash_path;
      sign_cli_path = or_default cfg.sign_cli_path hash_path;
    }

unfoldable pub new_sentinel_guard : Option SentinelConfig → ℕ → Option SentinelGuard
new_sentinel_guard none now = none
new_sentinel_guard (some cfg) now = some (record {
  cfg = with_defaults cfg;
  policy_gate = some (new_policy_gate (text "sentinel-agent") now);
  anchor_fn = none;
})
