-- ===== src/Guard/Audit/Anchoring.antt =====
-- What Enforce decides when the anchor refuses a record, and what it writes to the log.
use sentinel_protocol.Base.{
  ℕ, ◌≡◌, refl, ◌⊎◌, inl, inr, Bool, true, false, ◌&&◌, Option, none, some, List, [], ◌∷◌, ◌++◌,
  Fallible, ok, err,
}
use sentinel_protocol.Text.{Text}
use sentinel_protocol.Guard.Config.{AuditRecord, SentinelGuard}
use sentinel_protocol.Guard.Evaluate.{evaluate}
use sentinel_protocol.Guard.Hash.{Outside, materialize}
use sentinel_protocol.Guard.Anchor.{anchor}
use sentinel_protocol.Guard.Audit.{first_record, written, append_audit, enforce}

-- The record that is offered to the anchor.
abbrev pub offered : Outside → SentinelGuard → ℕ → Text → Text → AuditRecord
offered out sg now action prompt =
    materialize out sg.cfg (first_record action prompt now (evaluate sg action prompt))

abbrev pub is_err {ℓ} : {A : Type ℓ} → Fallible A → Bool
is_err (ok a) = false
is_err (err e) = true

-- Whether the fail-closed policy turns an evaluation that did not block into one that does.
abbrev pub closes : Outside → SentinelGuard → AuditRecord → Bool
closes out sg r = sg.cfg.anchor_enabled && (sg.cfg.anchor_fail_closed && is_err (anchor out sg r))

written_cases :
    (r : AuditRecord) (log : List AuditRecord) (o : Option Text)
    → ((written r log o).1 ≡ none × (written r log o).0 ≡ log ++ r ∷ [])
      ⊎ ((e : Text) × ((written r log o).1 ≡ some e) × ((written r log o).0 ≡ log))
unfolding written
written_cases r log none = inl (refl, refl)
written_cases r log (some e) = inr (e, refl, refl)

module _ (out : Outside) (sg : SentinelGuard) (now : ℕ) (action prompt : Text)
    (log : List AuditRecord) where
  -- The log grows by the record exactly when Enforce returns no error, and otherwise stays as it is.
  pub enforce_logs :
      let f = enforce out sg now action prompt log in
      ((f.failure ≡ none) × (f.log ≡ log ++ f.audit ∷ []))
      ⊎ ((e : Text) × (f.failure ≡ some e) × (f.log ≡ log))
  unfolding enforce append_audit
  enforce_logs = written_cases _ log (out.write_audit sg.cfg.audit_log_path _)
