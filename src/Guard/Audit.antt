-- ===== src/Guard/Audit.antt =====
-- goserver/sentinel_guard.go: Enforce.
pub mod Enforced
pub mod Anchoring
use sentinel_protocol.Base.{
  ℕ, suc, ◌+◌, ◌<◌, Bool, true, false, not, ◌&&◌, ◌||◌, Option, none, some, List, [], ◌∷◌, ◌++◌,
  map, if◌then◌else◌, ltb, ◌==◌, length, take, drop, ℤ, pos, negsuc, ltb_ℤ, max_int, Fallible, ok,
  err, decided,
}
use sentinel_protocol.Text.{
  Text, Text-discrete, text, is_empty, is_prefix, join, decimal, decimal_int, hex_encode,
  trim_space, to_upper,
}
use sentinel_protocol.Guard.Tags.{Tag, anchor_failure, tag_text, dedupe}
use sentinel_protocol.Guard.Config.{
  SentinelConfig, RiskEvaluation, RecordDecision, undecided, blocked, allowed, decision_text,
  AuditRecord, SentinelGuard,
}
use sentinel_protocol.Guard.Evaluate.{evaluate}
use sentinel_protocol.Guard.Hash.{
  Outside, joined_tags, run_or_fail, hash_via_rust, local_hash, compute_hash, sign_hash,
  signed_record, materialize,
}
use sentinel_protocol.Guard.Anchor.{
  action_to_tag, from_first, first_line, digest_line, transaction_digest, clamp_score,
  anchor_to_sui, anchor,
}

unfoldable pub truncate : Text → ℕ → List ℕ
truncate s limit = if ltb limit (length s) then take limit s else s

unfoldable pub first_record : Text → Text → ℕ → RiskEvaluation → AuditRecord
first_record action prompt now eval = record {
  timestamp = now;
  action = action;
  prompt = truncate prompt 600;
  score = eval.score;
  tags = eval.tags;
  decision = if eval.should_block then blocked else allowed;
  reason = eval.reason;
  record_hash = [];
  signature = [];
  public_key = [];
  tx_digest = [];
  anchor_error = [];
}

-- The evaluation after an anchor that failed under the fail-closed policy.
unfoldable pub fail_closed : SentinelConfig → RiskEvaluation → RiskEvaluation
fail_closed cfg eval = record {
  score = max_int eval.score cfg.risk_threshold;
  tags = dedupe (eval.tags ++ anchor_failure ∷ []);
  reason = eval.reason ++ text "; on-chain anchor failed (fail-closed)";
  should_block = true;
}

unfoldable pub anchor_failed :
    Outside → SentinelConfig → RiskEvaluation → AuditRecord → Text → RiskEvaluation × AuditRecord
anchor_failed out cfg eval rec e =
    let noted = record rec { anchor_error = e } in
    let closed = fail_closed cfg eval in
    if cfg.anchor_fail_closed && not eval.should_block
    then (
      closed,
      materialize out cfg (record noted {
        score = closed.score;
        tags = closed.tags;
        decision = blocked;
        reason = closed.reason;
      }),
    )
    else (eval, noted)

unfoldable pub after_anchor :
    Outside
    → SentinelConfig
    → RiskEvaluation
    → AuditRecord
    → Fallible Text
    → RiskEvaluation × AuditRecord
after_anchor out cfg eval rec (ok tx) = (eval, record rec { tx_digest = tx })
after_anchor out cfg eval rec (err e) = anchor_failed out cfg eval rec e

-- The record and the evaluation before they are written to the log.
unfoldable pub anchored :
    Outside → SentinelGuard → RiskEvaluation → AuditRecord → RiskEvaluation × AuditRecord
anchored out sg eval rec =
    if sg.cfg.anchor_enabled
    then after_anchor out sg.cfg eval rec (anchor out sg rec)
    else (eval, rec)

unfoldable pub written :
    AuditRecord → List AuditRecord → Option Text → List AuditRecord × Option Text
written rec log none = (log ++ rec ∷ [], none)
written rec log (some e) = (log, some e)

-- appendAudit, on the log of the records that were written. A write that fails leaves the log.
unfoldable pub append_audit :
    Outside → SentinelConfig → AuditRecord → List AuditRecord → List AuditRecord × Option Text
append_audit out cfg rec log = written rec log (out.write_audit cfg.audit_log_path rec)

-- What Enforce returns, and the log after it.
pub record Enforcement : Type 0 where
  pub eval : RiskEvaluation
  pub audit : AuditRecord
  pub failure : Option Text
  pub log : List AuditRecord

unfoldable pub enforce : Outside → SentinelGuard → ℕ → Text → Text → List AuditRecord → Enforcement
enforce out sg now action prompt log =
    let eval = evaluate sg action prompt in
    let first = materialize out sg.cfg (first_record action prompt now eval) in
    let (final, audit) = anchored out sg eval first in
    let (log', failure) = append_audit out sg.cfg audit log in
    record { eval = final; audit = audit; failure = failure; log = log' }
