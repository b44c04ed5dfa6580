-- ===== src/Gateway/Gate.antt =====
-- goserver/sentinel_gateway.go: handleGate.
use sentinel_protocol.Base.{
  ℕ, Bool, true, false, not, ◌&&◌, ◌||◌, Option, none, some, ◌++◌, if◌then◌else◌, ℤ, leb_ℤ,
}
use sentinel_protocol.Text.{Text, text, is_empty}
use sentinel_protocol.Guard.Tags.{prompt_injection, policy_bypass, anchor_failure, contains_tag}
use sentinel_protocol.Guard.Config.{RiskEvaluation, AuditRecord}
use sentinel_protocol.Guard.Audit.{Enforcement, enforce}
use sentinel_protocol.KillSwitch.{KillSwitch, is_armed, status, record_high_risk, record_low_risk}
use sentinel_protocol.Sandbox.{check, infer_capability}
use sentinel_protocol.Executor.{issue}
use sentinel_protocol.Approval.{start_challenge}
use sentinel_protocol.ProofChain.{ProofEntry, append}
use sentinel_protocol.Gateway.{
  SentinelGateway, World, Draws, GateRequest, GateDecision, allow, require_approval, block,
  trigger_kill_switch, GateResponse, gated, failed, Reply, reply, bad_body, method_not_allowed,
  refusal,
}

-- The two ways in which a response is refused before the evaluation.
unfoldable pub armed_refusal : KillSwitch → GateResponse
armed_refusal ks = refusal trigger_kill_switch (text "kill switch is armed: " ++ (status ks).reason)

unfoldable pub capability_refusal : GateRequest → GateResponse
capability_refusal req = refusal block (
    text "agent "
    ++ (req.agent_id ++ (text " not authorized for capability: " ++ infer_capability req.action)))

-- The sandbox check is made only for a request that names its agent.
unfoldable pub capability_denied : SentinelGateway → GateRequest → Bool
capability_denied gw req =
    not (is_empty req.agent_id) && not (check gw.sandbox req.agent_id (infer_capability req.action))

unfoldable pub count_risk : KillSwitch → ℤ → ℤ → ℕ → KillSwitch
count_risk ks threshold score now =
    if leb_ℤ threshold score then record_high_risk ks now else record_low_risk ks

abbrev response_of : GateDecision → RiskEvaluation → AuditRecord → ProofEntry → GateResponse
response_of decision eval rec entry = record {
  decision = decision;
  score = eval.score;
  tags = eval.tags;
  reason = eval.reason;
  record_hash = rec.record_hash;
  token = none;
  challenge_id = text "";
  proof_index = entry.index;
  tx_digest = rec.tx_digest;
  anchor_error = rec.anchor_error;
}

-- The response when this request armed the switch.
unfoldable pub auto_armed_response : RiskEvaluation → AuditRecord → ProofEntry → GateResponse
auto_armed_response eval rec entry = record (response_of trigger_kill_switch eval rec entry) {
  reason = text "kill switch auto-armed: consecutive high-risk threshold reached";
  tx_digest = text "";
  anchor_error = text "";
}

unfoldable pub is_hard_block : RiskEvaluation → Bool
is_hard_block eval =
    contains_tag eval.tags prompt_injection
    || (contains_tag eval.tags policy_bypass || contains_tag eval.tags anchor_failure)

-- The response by the evaluation, with the challenge or the token that it takes.
unfoldable pub respond :
    Draws
    → SentinelGateway
    → GateRequest
    → RiskEvaluation
    → AuditRecord
    → ProofEntry
    → SentinelGateway × GateResponse
respond d gw req eval rec entry =
    if eval.should_block
    then (if is_hard_block eval
        then (gw, response_of block eval rec entry)
        else let (approval, ch) =
            start_challenge gw.approval req.action req.prompt eval.score d.challenge_id
              d.started_at in
          (
            record gw { approval = approval },
            record (response_of require_approval eval rec entry) { challenge_id = ch.id },
          ))
    else let (executor, tok) = issue gw.executor req.action d.token_bytes d.issued_at in
      (
        record gw { executor = executor },
        record (response_of allow eval rec entry) { token = some tok },
      )

-- The part after a record that Enforce wrote: proof chain, kill switch, response.
unfoldable pub conclude :
    World
    → Draws
    → SentinelGateway
    → GateRequest
    → RiskEvaluation
    → AuditRecord
    → SentinelGateway × Reply
conclude w d gw req eval rec =
    let (proof, entry) = append w.services gw.proof rec d.batched_at in
    let kill = count_risk gw.kill gw.guard.cfg.risk_threshold eval.score d.counted_at in
    let counted = record gw { proof = proof; kill = kill } in
    if is_armed kill
    then (counted, reply 200 (gated (auto_armed_response eval rec entry)))
    else let (after, resp) = respond d counted req eval rec entry in (after, reply 200 (gated resp))

abbrev pub settle :
    World
    → Draws
    → SentinelGateway
    → GateRequest
    → Enforcement
    → Option Text
    → SentinelGateway × Reply
settle w d gw req enforced (some e) = (gw, reply 500 (failed e))
settle w d gw req enforced none = conclude w d gw req enforced.eval enforced.audit

-- The part after the checks of the switch and of the sandbox.
unfoldable pub enforce_and_settle :
    World → Draws → SentinelGateway → GateRequest → SentinelGateway × Reply
enforce_and_settle w d gw req =
    let enforced = enforce w.outside gw.guard d.evaluated_at req.action req.prompt gw.audit_log in
    settle w d (record gw { audit_log = enforced.log }) req enforced enforced.failure

-- handleGate, with the request if the body decodes.
unfoldable pub gate : World → Draws → SentinelGateway → GateRequest → SentinelGateway × Reply
gate w d gw req =
    if is_armed gw.kill
    then (gw, reply 403 (gated (armed_refusal gw.kill)))
    else if capability_denied gw req
    then (gw, reply 403 (gated (capability_refusal req)))
    else enforce_and_settle w d gw req

unfoldable pub handle_gate :
    World → Draws → SentinelGateway → Bool → Option GateRequest → SentinelGateway × Reply
handle_gate w d gw false body = (gw, method_not_allowed)
handle_gate w d gw true none = (gw, bad_body)
handle_gate w d gw true (some req) = gate w d gw req
