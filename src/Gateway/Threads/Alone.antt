-- ===== src/Gateway/Threads/Alone.antt =====
-- A handler that runs with no other between its steps does what `serve` says.
use sentinel_protocol.Base.{
  ℕ, zero, suc, ◌≡◌, refl, Bool, true, false, Option, none, some, if◌then◌else◌, Fallible, ok, err,
}
use sentinel_protocol.Text.{Text}
use sentinel_protocol.Guard.Config.{RiskEvaluation, AuditRecord}
use sentinel_protocol.Guard.Audit.{Enforcement, enforce}
use sentinel_protocol.KillSwitch.{is_armed}
use sentinel_protocol.Executor.{ExecuteToken, redeem}
use sentinel_protocol.ProofChain.{append}
use sentinel_protocol.Gateway.{SentinelGateway, World, Draws, GateRequest, ExecuteRequest, Reply}
use sentinel_protocol.Gateway.Gate.{
  gate, handle_gate, enforce_and_settle, settle, conclude, capability_denied, count_risk,
}
use sentinel_protocol.Gateway.Serve.{
  Request, gates, starts_approval, confirms_approval, executes, asks_proof, asks_status,
  arms_kill_switch, disarms_kill_switch, asks_health, serve, handle_approval_start,
  handle_approval_confirm, confirm_request, handle_execute, execute_request, after_redeem,
  handle_latest_proof, handle_status, handle_kill_switch_arm, handle_kill_switch_disarm,
  handle_health,
}
use sentinel_protocol.Gateway.Threads.{
  Pc, gate_entry, gate_recorded, entry, after_enforce, executed_pc, advance, reply_of,
}

-- So many steps of one handler.
unfoldable pub alone : World → ℕ → SentinelGateway × Pc → SentinelGateway × Pc
alone w zero (gw, pc) = (gw, pc)
alone w (suc n) (gw, pc) = alone w n (advance w gw pc)

-- The gateway and the reply that a handler ends with.
abbrev pub Ends : SentinelGateway × Pc → SentinelGateway × Reply → Type 0
Ends (gw, pc) (gw', r) = (gw ≡ gw') × (reply_of pc ≡ some r)

-- A branch of a handler against a branch of `serve`.
if_Ends :
    (w : World) (n : ℕ) (gw : SentinelGateway) (b : Bool) (p q : Pc) (x y : SentinelGateway × Reply)
    → Ends (alone w n (gw, p)) x
    → Ends (alone w n (gw, q)) y
    → Ends (alone w n (gw, if b then p else q)) (if b then x else y)
if_Ends w n gw true p q x y ends_p ends_q = ends_p
if_Ends w n gw false p q x y ends_p ends_q = ends_q

recorded_alone :
    (w : World) (gw : SentinelGateway) (d : Draws) (req : GateRequest) (eval : RiskEvaluation)
    (rec : AuditRecord)
    → Ends (alone w 4 (gw, gate_recorded d req eval rec)) (conclude w d gw req eval rec)
unfolding alone advance conclude
recorded_alone w gw d req eval rec =
    let (proof, entry) = append w.services gw.proof rec d.batched_at in
    let kill = count_risk gw.kill gw.guard.cfg.risk_threshold eval.score d.counted_at in
    if_Ends w 1 (record gw { proof = proof; kill = kill }) (is_armed kill) _ _ _ _ (refl, refl)
      (refl, refl)

enforced_alone :
    (w : World) (gw : SentinelGateway) (d : Draws) (req : GateRequest) (e : Enforcement)
    (failure : Option Text)
    → Ends (alone w 4 (gw, after_enforce d req e failure)) (settle w d gw req e failure)
unfolding alone advance
enforced_alone w gw d req e (some why) = (refl, refl)
enforced_alone w gw d req e none = recorded_alone w gw d req e.eval e.audit

gate-alone :
    (w : World) (gw : SentinelGateway) (d : Draws) (req : GateRequest)
    → Ends (alone w 7 (gw, gate_entry d req)) (gate w d gw req)
unfolding alone advance gate enforce_and_settle
gate-alone w gw d req =
    let e : Enforcement =
      enforce w.outside gw.guard d.evaluated_at req.action req.prompt gw.audit_log in
    if_Ends w 6 gw (is_armed gw.kill) _ _ _ _ (refl, refl)
      (if_Ends w 5 gw (capability_denied gw req) _ _ _ _ (refl, refl)
        (enforced_alone w (record gw { audit_log = e.log }) d req e e.failure))

redeemed_alone :
    (w : World) (n : ℕ) (gw gw' : SentinelGateway) (d : Draws) (req : ExecuteRequest)
    (result : Fallible ExecuteToken)
    → Ends (alone w n (gw', executed_pc w d gw req result)) (gw', after_redeem w gw req result)
unfolding alone advance
redeemed_alone w zero gw gw' d req (err e) = (refl, refl)
redeemed_alone w zero gw gw' d req (ok tok) = (refl, refl)
redeemed_alone w (suc n) gw gw' d req (err e) = redeemed_alone w n gw gw' d req (err e)
redeemed_alone w (suc n) gw gw' d req (ok tok) = redeemed_alone w n gw gw' d req (ok tok)

-- A handler whose steps no other interrupts finishes in at most seven, with the gateway and the
-- reply that `serve` gives for its request.
alone_serves :
    (w : World) (gw : SentinelGateway) (d : Draws) (r : Request)
    → Ends (alone w 7 (gw, entry d r)) (serve w d gw r)
unfolding alone advance entry serve handle_gate handle_approval_start handle_approval_confirm
    confirm_request handle_execute execute_request handle_latest_proof handle_status
    handle_kill_switch_arm handle_kill_switch_disarm handle_health
alone_serves w gw d (gates false body) = (refl, refl)
alone_serves w gw d (gates true none) = (refl, refl)
alone_serves w gw d (gates true (some req)) = gate-alone w gw d req
alone_serves w gw d (starts_approval false body) = (refl, refl)
alone_serves w gw d (starts_approval true none) = (refl, refl)
alone_serves w gw d (starts_approval true (some req)) = (refl, refl)
alone_serves w gw d (confirms_approval false body) = (refl, refl)
alone_serves w gw d (confirms_approval true none) = (refl, refl)
alone_serves w gw d (confirms_approval true (some req)) = (refl, refl)
alone_serves w gw d (executes false body) = (refl, refl)
alone_serves w gw d (executes true none) = (refl, refl)
alone_serves w gw d (executes true (some req)) =
    let (executor, result) = redeem gw.executor req.token_id d.issued_at in
    redeemed_alone w 6 gw (record gw { executor = executor }) d req result
alone_serves w gw d (asks_proof false) = (refl, refl)
alone_serves w gw d (asks_proof true) = (refl, refl)
alone_serves w gw d (asks_status false) = (refl, refl)
alone_serves w gw d (asks_status true) = (refl, refl)
alone_serves w gw d (arms_kill_switch false reason) = (refl, refl)
alone_serves w gw d (arms_kill_switch true reason) = (refl, refl)
alone_serves w gw d (disarms_kill_switch false) = (refl, refl)
alone_serves w gw d (disarms_kill_switch true) = (refl, refl)
alone_serves w gw d asks_health = (refl, refl)
