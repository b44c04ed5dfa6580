-- ===== src/Modes.antt =====
-- goserver/main.go and goserver/config.go: what the run modes share. What a mode loaded, or why it
-- could not, is an argument of it; the output that is encoded is the result; what went to the sender
-- is kept beside it.
pub mod Eval
pub mod Output
pub mod OneClick
pub mod Cleared
pub mod Files
pub mod Report
pub mod Proxy
pub mod Main
use sentinel_protocol.Base.{
  ℕ, Bool, true, false, not, ◌||◌, Option, none, some, List, [], ◌∷◌, ◌++◌, if◌then◌else◌, decided,
  ℤ, pos, Fallible, ok, err,
}
use sentinel_protocol.Text.{Text, Text-discrete, text, is_empty, trim_space, to_lower, contains}
use sentinel_protocol.Guard.Tags.{Tag}
use sentinel_protocol.Guard.Config.{
  SentinelConfig, RiskEvaluation, RecordDecision, AuditRecord, SentinelGuard, new_sentinel_guard,
}
use sentinel_protocol.Guard.Hash.{Outside, hash_via_rust}
use sentinel_protocol.Guard.Audit.{Enforcement, enforce}
use sentinel_protocol.OpenClaw.{
  OpenClawConfig, OpenClawResponse, OpenClawClient, Agents, send_task_without_sentinel,
}

pub record SentinelOneClickConfig : Type 0 where
  pub sui_rpc_url : Text
  pub openclaw : Option OpenClawConfig
  pub sentinel : Option SentinelConfig

unfoldable pub default_sentinel_config : SentinelConfig
default_sentinel_config = record {
  enabled = true;
  risk_threshold = pos 70;
  audit_log_path = text "./audit/sentinel-audit.jsonl";
  anchor_enabled = false;
  anchor_fail_closed = false;
  anchor_package = [];
  anchor_module = [];
  anchor_func = [];
  anchor_registry = [];
  hash_cli_path = [];
  sign_cli_path = [];
  sign_priv_key = [];
}

unfoldable pub resolve_sentinel_config : Option SentinelConfig → SentinelConfig
resolve_sentinel_config none = default_sentinel_config
resolve_sentinel_config (some cfg) = cfg

-- What a run of a mode returns, the log after it, and the prompt that went to the sender.
pub record Outcome (R : Type 0) : Type 0 where
  pub result : Fallible R
  pub log : List AuditRecord
  pub sent : Option Text

abbrev pub stopped : {R : Type 0} → List AuditRecord → Text → Outcome R
stopped log why = record { result = err why; log = log; sent = none }

-- The outcome of a mode that main runs: its error ends the program with a message.
abbrev prefixed : {R : Type 0} → Text → Fallible R → Fallible R
prefixed message (err e) = err (message ++ e)
prefixed message (ok r) = ok r

abbrev pub fatal : {R : Type 0} → Text → Outcome R → Outcome R
fatal message o = record o { result = prefixed message o.result }
