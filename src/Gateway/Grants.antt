-- ===== src/Gateway/Grants.antt =====
-- When the gate and the approval of a challenge hand out a token.
use sentinel_protocol.Base.{
  ◌≤◌, ◌≡◌, refl, sym, ap, ◌∙◌, true, false, none, some, arith, Bool-cases, inl, inr, Fallible, ok,
  err,
}
use sentinel_protocol.Guard.Config.{RiskEvaluation, AuditRecord}
use sentinel_protocol.Guard.Audit.{Enforcement}
use sentinel_protocol.KillSwitch.{is_armed}
use sentinel_protocol.Executor.{ExecuteToken, new_token, issue}
use sentinel_protocol.Approval.{ApprovalChallenge, is_pending, confirm}
use sentinel_protocol.Approval.Final.{challenge_at}
use sentinel_protocol.Approval.Expiry.{confirm_in_time}
use sentinel_protocol.ProofChain.{ProofEntry, append}
use sentinel_protocol.Gateway.{
  SentinelGateway, World, Draws, GateRequest, ApprovalConfirmRequest, Reply,
}
use sentinel_protocol.Gateway.Gate.{gate, enforce_and_settle, settle, conclude, respond, count_risk}
use sentinel_protocol.Gateway.Serve.{confirm_request, after_confirm, is_approved}
use sentinel_protocol.Gateway.Granted.{token_of}
use sentinel_protocol.Gateway.Safety.{IsClear, enforced}

abbrev HandsOut : Reply → Type 0
HandsOut r = (tok : ExecuteToken) × (token_of r.body ≡ some tok)

respond-HandsOut :
    (d : Draws) (gw : SentinelGateway) (req : GateRequest) (eval : RiskEvaluation)
    (rec : AuditRecord) (entry : ProofEntry)
    → eval.should_block ≡ false
    → (tok : ExecuteToken) × ((respond d gw req eval rec entry).1.token ≡ some tok)
unfolding respond
respond-HandsOut d gw req eval rec entry unblocked = rw unblocked (_, refl)

conclude-HandsOut :
    (w : World) (d : Draws) (gw : SentinelGateway) (req : GateRequest) (eval : RiskEvaluation)
    (rec : AuditRecord)
    → eval.should_block ≡ false
    → is_armed (conclude w d gw req eval rec).0.kill ≡ false
    → HandsOut (conclude w d gw req eval rec).1
unfolding conclude
conclude-HandsOut w d gw req eval rec unblocked calm =
    let (proof, entry) = append w.services gw.proof rec d.batched_at in
    let kill = count_risk gw.kill gw.guard.cfg.risk_threshold eval.score d.counted_at in
    elim (Bool-cases (is_armed kill)) [
      | inl armed ↦ absurd (ground (arith, armed, calm))
      | inr off ↦
          let (tok, given) =
            respond-HandsOut d (record gw { proof = proof; kill = kill }) req eval rec entry
              unblocked in
          (tok, ground (arith, off, given))
    ]

gate_settles :
    (w : World) (d : Draws) (gw : SentinelGateway) (req : GateRequest)
    → IsClear w d gw req
    → gate w d gw req
      ≡ settle w d
          (record gw { audit_log = (enforced w d gw req).log })
          req
          (enforced w d gw req)
          none
unfolding gate enforce_and_settle
gate_settles w d gw req clear = rw (clear.disarmed, clear.capable, clear.audited) refl

pub gate-HandsOut :
    (w : World) (d : Draws) (gw : SentinelGateway) (req : GateRequest)
    → IsClear w d gw req
    → (tok : ExecuteToken) × (token_of (gate w d gw req).1.body ≡ some tok)
gate-HandsOut w d gw req clear =
    let e : Enforcement = enforced w d gw req in
    let through : gate w d gw req ≡ settle w d (record gw { audit_log = e.log }) req e none =
      gate_settles w d gw req clear in
    rw through (
      conclude-HandsOut w d (record gw { audit_log = e.log }) req e.eval e.audit clear.unblocked
        (ap (λ (r : SentinelGateway × Reply). is_armed r.0.kill) (sym through)
          ∙ clear.still_disarmed))

after_confirm_token :
    (d : Draws) (gw : SentinelGateway) (result : Fallible ApprovalChallenge) (tok : ExecuteToken)
    → token_of (after_confirm d gw result).1.body ≡ some tok
    → (ch : ApprovalChallenge) × (result ≡ ok ch)
      × (is_approved ch.status ≡ true)
      × (tok.action ≡ ch.action)
unfolding after_confirm issue new_token
after_confirm_token d gw (err e) tok h = absurd (ground arith)
after_confirm_token d gw (ok ch) tok h = (ch, refl, ground arith, ground arith)

-- A confirmation hands out a token only if it approves, and only for a challenge that was pending
-- and had not expired; the token is for the action of that challenge.
pub confirm_token :
    (d : Draws) (gw : SentinelGateway) (req : ApprovalConfirmRequest) (tok : ExecuteToken)
    → token_of (confirm_request d gw req).1.body ≡ some tok
    → (old : ApprovalChallenge) × (challenge_at gw.approval req.challenge_id ≡ some old)
      × (is_pending old.status ≡ true)
      × (d.started_at ≤ old.expires_at)
      × (req.approves ≡ true)
      × (tok.action ≡ old.action)
unfolding confirm_request
confirm_token d gw req tok h =
    let result =
      (confirm gw.approval req.challenge_id req.approves req.decided_by d.started_at
        d.decided_at).1 in
    let (ch, confirmed, approves, same) = after_confirm_token d _ result tok h in
    let (old, found, waiting, in_time, _, settled) =
      confirm_in_time gw.approval req.challenge_id req.approves req.decided_by d.started_at
        d.decided_at ch confirmed in
    (
      old,
      found,
      waiting,
      in_time,
      ground arith,
      same ∙ ap (λ (c : ApprovalChallenge). c.action) settled,
    )
