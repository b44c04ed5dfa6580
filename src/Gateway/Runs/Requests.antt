-- ===== src/Gateway/Runs/Requests.antt =====
-- Requests and ticks of the watcher as runs of the components.
use sentinel_protocol.Base.{
  ℕ, Bool, true, false, Option, none, some, List, [], ◌∷◌, if_both, leb_ℤ, Fallible, ok, err, ℤ,
}
use sentinel_protocol.Text.{Text, text}
use sentinel_protocol.Guard.Config.{RiskEvaluation, AuditRecord, or_default}
use sentinel_protocol.Guard.Audit.{Enforcement, enforce}
use sentinel_protocol.Executor
use sentinel_protocol.KillSwitch.{is_armed}
use sentinel_protocol.Approval
use sentinel_protocol.KillSwitch
use sentinel_protocol.ProofChain.{ProofEntry, append}
use sentinel_protocol.Gateway.{
  SentinelGateway, World, Draws, GateRequest, ApprovalConfirmRequest, Reply, GateResponse,
}
use sentinel_protocol.Gateway.Gate.{
  handle_gate, gate, enforce_and_settle, conclude, respond, count_risk, capability_denied,
  is_hard_block, settle,
}
use sentinel_protocol.Gateway.Serve.{
  handle_approval_start, handle_approval_confirm, confirm_request, after_confirm, handle_execute,
  execute_request, handle_kill_switch_arm, handle_kill_switch_disarm, serve, tick, Request, gates,
  starts_approval, confirms_approval, executes, asks_proof, asks_status, arms_kill_switch,
  disarms_kill_switch, asks_health, Happening, requests, ticks, happen, live,
}
use sentinel_protocol.Gateway.Runs.{
  Runs, Runs-refl, Runs-trans, executor_call, approval_call, kill_event, append_call, logged,
}

pub respond-Runs :
    (w : World) (d : Draws) (gw : SentinelGateway) (req : GateRequest) (eval : RiskEvaluation)
    (rec : AuditRecord) (entry : ProofEntry)
    → Runs w gw (respond d gw req eval rec entry).0
unfolding respond Executor.step Approval.step
respond-Runs w d gw req eval rec entry =
    if_both (λ (r : SentinelGateway × GateResponse). Runs w gw r.0) eval.should_block _ _
      (if_both (λ (r : SentinelGateway × GateResponse). Runs w gw r.0) (is_hard_block eval) _ _
        (Runs-refl w gw)
        (approval_call w gw
          (Approval.starts req.action req.prompt eval.score d.challenge_id d.started_at)))
      (executor_call w gw (Executor.issues req.action d.token_bytes d.issued_at))

pub count_risk-Runs :
    (w : World) (gw : SentinelGateway) (threshold score : ℤ) (now : ℕ)
    → Runs w gw (record gw { kill = count_risk gw.kill threshold score now })
unfolding count_risk KillSwitch.step
count_risk-Runs w gw threshold score now =
    if_both (λ ks. Runs w gw (record gw { kill = ks })) (leb_ℤ threshold score) _ _
      (kill_event w gw (KillSwitch.high_risk now)) (kill_event w gw KillSwitch.low_risk)

conclude-Runs :
    (w : World) (d : Draws) (gw : SentinelGateway) (req : GateRequest) (eval : RiskEvaluation)
    (rec : AuditRecord)
    → Runs w gw (conclude w d gw req eval rec).0
unfolding conclude
conclude-Runs w d gw req eval rec =
    let proof = (append w.services gw.proof rec d.batched_at).0 in
    let counted = Runs-trans w gw _ _ (append_call w gw rec d.batched_at) (
      count_risk-Runs w (record gw { proof = proof }) gw.guard.cfg.risk_threshold eval.score
        d.counted_at) in
    if_both (λ (r : SentinelGateway × Reply). Runs w gw r.0) _ _ _ counted
      (Runs-trans w _ _ _ counted (respond-Runs w d _ req eval rec _))

settle-Runs :
    (w : World) (d : Draws) (gw : SentinelGateway) (req : GateRequest) (enforced : Enforcement)
    (failure : Option Text)
    → Runs w gw (settle w d gw req enforced failure).0
settle-Runs w d gw req enforced (some e) = Runs-refl w gw
settle-Runs w d gw req enforced none = conclude-Runs w d gw req enforced.eval enforced.audit

enforce_and_settle-Runs :
    (w : World) (d : Draws) (gw : SentinelGateway) (req : GateRequest)
    → Runs w gw (enforce_and_settle w d gw req).0
unfolding enforce_and_settle
enforce_and_settle-Runs w d gw req =
    let enforced : Enforcement =
      enforce w.outside gw.guard d.evaluated_at req.action req.prompt gw.audit_log in
    logged w gw _ enforced.log
      (settle-Runs w d (record gw { audit_log = enforced.log }) req enforced enforced.failure)

gate-Runs :
    (w : World) (d : Draws) (gw : SentinelGateway) (req : GateRequest)
    → Runs w gw (gate w d gw req).0
unfolding gate
gate-Runs w d gw req =
    if_both (λ (r : SentinelGateway × Reply). Runs w gw r.0) (is_armed gw.kill) _ _ (Runs-refl w gw)
      (if_both (λ (r : SentinelGateway × Reply). Runs w gw r.0) (capability_denied gw req) _ _
        (Runs-refl w gw) (enforce_and_settle-Runs w d gw req))

handle_gate-Runs :
    (w : World) (d : Draws) (gw : SentinelGateway) (posted : Bool) (body : Option GateRequest)
    → Runs w gw (handle_gate w d gw posted body).0
unfolding handle_gate
handle_gate-Runs w d gw false body = Runs-refl w gw
handle_gate-Runs w d gw true none = Runs-refl w gw
handle_gate-Runs w d gw true (some req) = gate-Runs w d gw req

pub after_confirm-Runs :
    (w : World) (d : Draws) (gw : SentinelGateway) (result : Fallible Approval.ApprovalChallenge)
    → Runs w gw (after_confirm d gw result).0
unfolding after_confirm Executor.step
after_confirm-Runs w d gw (err e) = Runs-refl w gw
after_confirm-Runs w d gw (ok ch) =
    if_both (λ (r : SentinelGateway × Reply). Runs w gw r.0) _ _ _
      (executor_call w gw (Executor.issues ch.action d.token_bytes d.issued_at)) (Runs-refl w gw)

confirm_request-Runs :
    (w : World) (d : Draws) (gw : SentinelGateway) (req : ApprovalConfirmRequest)
    → Runs w gw (confirm_request d gw req).0
unfolding confirm_request Approval.step
confirm_request-Runs w d gw req =
    Runs-trans w _ _ _
      (approval_call w gw
        (Approval.confirms req.challenge_id req.approves req.decided_by d.started_at d.decided_at))
      (after_confirm-Runs w d _ _)

-- A request changes the gateway by calls of its components only.
pub serve-Runs :
    (w : World) (d : Draws) (gw : SentinelGateway) (r : Request) → Runs w gw (serve w d gw r).0
unfolding serve handle_approval_start handle_approval_confirm handle_execute execute_request
    handle_kill_switch_arm handle_kill_switch_disarm Executor.step Approval.step KillSwitch.step
serve-Runs w d gw (gates posted body) = handle_gate-Runs w d gw posted body
serve-Runs w d gw (starts_approval false body) = Runs-refl w gw
serve-Runs w d gw (starts_approval true none) = Runs-refl w gw
serve-Runs w d gw (starts_approval true (some req)) =
    approval_call w gw (Approval.starts req.action req.prompt req.score d.challenge_id d.started_at)
serve-Runs w d gw (confirms_approval false body) = Runs-refl w gw
serve-Runs w d gw (confirms_approval true none) = Runs-refl w gw
serve-Runs w d gw (confirms_approval true (some req)) = confirm_request-Runs w d gw req
serve-Runs w d gw (executes false body) = Runs-refl w gw
serve-Runs w d gw (executes true none) = Runs-refl w gw
serve-Runs w d gw (executes true (some req)) =
    executor_call w gw (Executor.redeems req.token_id d.issued_at)
serve-Runs w d gw (asks_proof got) = Runs-refl w gw
serve-Runs w d gw (asks_status got) = Runs-refl w gw
serve-Runs w d gw (arms_kill_switch false reason) = Runs-refl w gw
serve-Runs w d gw (arms_kill_switch true reason) =
    kill_event w gw (KillSwitch.arms (or_default reason (text "manual arm via API")) d.counted_at)
serve-Runs w d gw (disarms_kill_switch false) = Runs-refl w gw
serve-Runs w d gw (disarms_kill_switch true) = kill_event w gw KillSwitch.disarms
serve-Runs w d gw asks_health = Runs-refl w gw

happen-Runs : (w : World) (gw : SentinelGateway) (h : Happening) → Runs w gw (happen w gw h)
unfolding happen tick Approval.step
happen-Runs w gw (requests d r) = serve-Runs w d gw r
happen-Runs w gw (ticks now) = approval_call w gw (Approval.cleans now)

-- Whatever requests are served and whatever the watcher does, the token guard, the approvals, the
-- kill switch and the proof chain of a gateway each go through a run of their own operations, and
-- the risk guard and the sandbox stay as they are.
pub live-Runs : (w : World) (gw : SentinelGateway) (hs : List Happening) → Runs w gw (live w gw hs)
unfolding live
live-Runs w gw [] = Runs-refl w gw
live-Runs w gw (h ∷ hs) = Runs-trans w _ _ _ (happen-Runs w gw h) (live-Runs w (happen w gw h) hs)
