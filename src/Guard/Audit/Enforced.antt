-- ===== src/Guard/Audit/Enforced.antt =====
-- What is recorded: the record that Enforce logs says what the evaluation that it returns says, and
-- its hash is of its final content.
use sentinel_protocol.Base.{
  none, some, ◌++◌, ◌∷◌, ◌⊎◌, ℕ, ◌≡◌, refl, sym, ◌∙◌, inl, inr, not, ◌&&◌, List, [], arith,
  Bool-cases, if_both, if◌then◌else◌, Fallible, ok, err,
}
use sentinel_protocol.Text.{Text}
use sentinel_protocol.Guard.Config.{
  SentinelConfig, RiskEvaluation, blocked, allowed, AuditRecord, SentinelGuard,
}
use sentinel_protocol.Guard.Evaluate.{evaluate}
use sentinel_protocol.Guard.Hash.{
  Outside, hash_via_rust, local_hash, compute_hash, signed_record, materialize,
}
use sentinel_protocol.Guard.Anchor.{anchor}
use sentinel_protocol.Guard.Audit.{
  first_record, fail_closed, anchor_failed, after_anchor, anchored, enforce,
}
use sentinel_protocol.Guard.Audit.Anchoring.{enforce_logs}

-- A record that says what an evaluation says.
pub record Fits (e : RiskEvaluation) (r : AuditRecord) : Type 0 where
  pub same_score : r.score ≡ e.score
  pub same_tags : r.tags ≡ e.tags
  pub same_reason : r.reason ≡ e.reason
  pub same_decision : r.decision ≡ (if e.should_block then blocked else allowed)

-- And whose hash is of its content as it stands.
abbrev pub Agrees : Outside → SentinelConfig → RiskEvaluation → AuditRecord → Type 0
Agrees out cfg e r = Fits e r × (r.record_hash ≡ compute_hash out cfg r)

-- The hash reads neither the fields that materialize sets nor those of the anchor.
compute_hash_content :
    (out : Outside) (cfg : SentinelConfig) (r : AuditRecord) (h s k t e : Text)
    → compute_hash out cfg (record r {
      record_hash = h;
      signature = s;
      public_key = k;
      tx_digest = t;
      anchor_error = e;
    })
      ≡ compute_hash out cfg r
unfolding compute_hash hash_via_rust local_hash
compute_hash_content out cfg r h s k t e = refl

signed_record-Agrees :
    (out : Outside) (cfg : SentinelConfig) (e : RiskEvaluation) (r : AuditRecord)
    (s : Fallible (Text × Text))
    → Fits e r
    → Agrees out cfg e (signed_record r (compute_hash out cfg r) s)
unfolding signed_record
signed_record-Agrees out cfg e r (ok (s, k)) f = (
  record {
    same_score = f.same_score;
    same_tags = f.same_tags;
    same_reason = f.same_reason;
    same_decision = f.same_decision;
  },
  sym (compute_hash_content out cfg r _ s k r.tx_digest r.anchor_error),
)
signed_record-Agrees out cfg e r (err _) f = (
  record {
    same_score = f.same_score;
    same_tags = f.same_tags;
    same_reason = f.same_reason;
    same_decision = f.same_decision;
  },
  sym (compute_hash_content out cfg r _ [] [] r.tx_digest r.anchor_error),
)

materialize-Agrees :
    (out : Outside) (cfg : SentinelConfig) (e : RiskEvaluation) (r : AuditRecord)
    → Fits e r
    → Agrees out cfg e (materialize out cfg r)
unfolding materialize
materialize-Agrees out cfg e r = signed_record-Agrees out cfg e r _

first_record-Fits :
    (action prompt : Text) (now : ℕ) (e : RiskEvaluation)
    → Fits e (first_record action prompt now e)
unfolding first_record
first_record-Fits action prompt now e = ground arith

-- What the anchor notes on a record changes nothing that the hash reads.
noted-Agrees :
    (out : Outside) (cfg : SentinelConfig) (e : RiskEvaluation) (r : AuditRecord) (t a : Text)
    → Agrees out cfg e r
    → Agrees out cfg e (record r { tx_digest = t; anchor_error = a })
noted-Agrees out cfg e r t a (f, h) = (
  record {
    same_score = f.same_score;
    same_tags = f.same_tags;
    same_reason = f.same_reason;
    same_decision = f.same_decision;
  },
  h ∙ sym (compute_hash_content out cfg r r.record_hash r.signature r.public_key t a),
)

anchor_failed-Agrees :
    (out : Outside) (cfg : SentinelConfig) (e : RiskEvaluation) (r : AuditRecord) (msg : Text)
    → Agrees out cfg e r
    → let (e', r') = anchor_failed out cfg e r msg in Agrees out cfg e' r'
unfolding anchor_failed fail_closed
anchor_failed-Agrees out cfg e r msg g =
    elim (Bool-cases (cfg.anchor_fail_closed && not e.should_block)) [
      | inl closes ↦ rw closes (materialize-Agrees out cfg (fail_closed cfg e) _ closed-Fits)
      | inr stays ↦ rw stays (noted-Agrees out cfg e r r.tx_digest msg g)
    ]
  where
    closed-Fits : Fits (fail_closed cfg e) (record r {
      score = (fail_closed cfg e).score;
      tags = (fail_closed cfg e).tags;
      decision = blocked;
      reason = (fail_closed cfg e).reason;
      anchor_error = msg;
    })
    closed-Fits = record {
      same_score = refl;
      same_tags = refl;
      same_reason = refl;
      same_decision = refl;
    }

after_anchor-Agrees :
    (out : Outside) (cfg : SentinelConfig) (e : RiskEvaluation) (r : AuditRecord)
    (answer : Fallible Text)
    → Agrees out cfg e r
    → let (e', r') = after_anchor out cfg e r answer in Agrees out cfg e' r'
unfolding after_anchor
after_anchor-Agrees out cfg e r (ok tx) g = noted-Agrees out cfg e r tx r.anchor_error g
after_anchor-Agrees out cfg e r (err msg) g = anchor_failed-Agrees out cfg e r msg g

anchored-Agrees :
    (out : Outside) (sg : SentinelGuard) (e : RiskEvaluation) (r : AuditRecord)
    → Agrees out sg.cfg e r
    → let (e', r') = anchored out sg e r in Agrees out sg.cfg e' r'
unfolding anchored
anchored-Agrees out sg e r g =
    if_both (λ (p : RiskEvaluation × AuditRecord). Agrees out sg.cfg p.0 p.1) sg.cfg.anchor_enabled
      _ _ (after_anchor-Agrees out sg.cfg e r (anchor out sg r) g) g

-- On every path of Enforce the record that it returns says what the evaluation that is returned says,
-- and its hash is the hash of its final content; exactly this record is added to the log, unless the
-- write fails, when Enforce returns the error and the log stays as it is.
pub enforce-Agrees :
    (out : Outside) (sg : SentinelGuard) (now : ℕ) (action prompt : Text) (log : List AuditRecord)
    → let f = enforce out sg now action prompt log in
      Agrees out sg.cfg f.eval f.audit
      × (((f.failure ≡ none) × (f.log ≡ log ++ f.audit ∷ []))
          ⊎ ((e : Text) × (f.failure ≡ some e) × (f.log ≡ log)))
unfolding enforce
enforce-Agrees out sg now action prompt log = (
  anchored-Agrees out sg _ _ (
      materialize-Agrees out sg.cfg _ _
        (first_record-Fits action prompt now (evaluate sg action prompt))),
  enforce_logs out sg now action prompt log,
)
