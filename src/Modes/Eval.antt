-- ===== src/Modes/Eval.antt =====
-- goserver/main.go: runSentinelEvalMode.
use sentinel_protocol.Base.{ℕ, Option, none, some, List, ◌++◌, if◌then◌else◌, ℤ, Fallible, ok, err}
use sentinel_protocol.Text.{Text, text, is_empty, trim_space}
use sentinel_protocol.Guard.Tags.{Tag}
use sentinel_protocol.Guard.Config.{
  SentinelConfig, RecordDecision, AuditRecord, SentinelGuard, new_sentinel_guard,
}
use sentinel_protocol.Guard.Hash.{Outside}
use sentinel_protocol.Guard.Audit.{Enforcement, enforce}
use sentinel_protocol.Modes.{resolve_sentinel_config, Outcome, stopped}

pub record SentinelEvalOutput : Type 0 where
  pub action : Text
  pub prompt : Text
  pub score : ℤ
  pub tags : List Tag
  pub decision : RecordDecision
  pub reason : Text
  pub record_hash : Text
  pub audit_log_path : Text

abbrev eval_output : Text → Text → SentinelGuard → Enforcement → SentinelEvalOutput
eval_output action prompt sg e = record {
  action = action;
  prompt = prompt;
  score = e.eval.score;
  tags = e.eval.tags;
  decision = e.audit.decision;
  reason = e.eval.reason;
  record_hash = e.audit.record_hash;
  audit_log_path = sg.cfg.audit_log_path;
}

abbrev pub eval_enforced :
    Text → Text → SentinelGuard → Enforcement → Option Text → Outcome SentinelEvalOutput
eval_enforced action prompt sg e (some why) =
    stopped e.log (text "sentinel enforce failed: " ++ why)
eval_enforced action prompt sg e none = record {
  result = ok (eval_output action prompt sg e);
  log = e.log;
  sent = none;
}

abbrev pub eval_guarded :
    Outside → ℕ → Text → Text → List AuditRecord → Option SentinelGuard → Outcome SentinelEvalOutput
eval_guarded out now action prompt log none = stopped log (text "sentinel guard is not configured")
eval_guarded out now action prompt log (some sg) =
    let e = enforce out sg now action prompt log in eval_enforced action prompt sg e e.failure

abbrev pub eval_loaded :
    Outside
    → ℕ
    → Text
    → Text
    → List AuditRecord
    → Fallible (Option SentinelConfig)
    → Outcome SentinelEvalOutput
eval_loaded out now action prompt log (err e) =
    stopped log (text "failed to load sentinel config: " ++ e)
eval_loaded out now action prompt log (ok cfg) =
    eval_guarded out now action prompt log
      (new_sentinel_guard (some (resolve_sentinel_config cfg)) now)

-- runSentinelEvalMode
unfoldable pub run_sentinel_eval_mode :
    Outside
    → Fallible (Option SentinelConfig)
    → ℕ
    → Text
    → Text
    → List AuditRecord
    → Outcome SentinelEvalOutput
run_sentinel_eval_mode out loaded now action prompt log =
    if is_empty (trim_space action)
    then stopped log (text "--sentinel-eval-action is required in sentinel eval mode")
    else if is_empty (trim_space prompt)
    then stopped log (text "--sentinel-eval-prompt is required in sentinel eval mode")
    else eval_loaded out now (trim_space action) (trim_space prompt) log loaded
