-- ===== src/Gateway/Safety.antt =====
-- What the gate lets through, what the kill switch stops, and what it does not stop.
use sentinel_protocol.Base.{◌≡◌, refl, false, Option, none, some, arith}
use sentinel_protocol.Text.{Text}
use sentinel_protocol.Guard.Config.{RiskEvaluation, AuditRecord}
use sentinel_protocol.Guard.Audit.{Enforcement, enforce}
use sentinel_protocol.KillSwitch.{is_armed}
use sentinel_protocol.Executor.{ExecuteToken, new_token, issue}
use sentinel_protocol.ProofChain.{ProofEntry, append}
use sentinel_protocol.Gateway.{SentinelGateway, World, Draws, GateRequest}
use sentinel_protocol.Gateway.Gate.{
  gate, enforce_and_settle, settle, conclude, respond, count_risk, capability_denied, armed_refusal,
  capability_refusal, auto_armed_response,
}
use sentinel_protocol.Gateway.Granted.{token_of}

-- What Enforce makes of a request to the gate.
abbrev pub enforced : World → Draws → SentinelGateway → GateRequest → Enforcement
enforced w d gw req = enforce w.outside gw.guard d.evaluated_at req.action req.prompt gw.audit_log

-- The state in which a gate hands out a token.
pub record IsClear (w : World) (d : Draws) (gw : SentinelGateway) (req : GateRequest) : Type 0 where
  pub disarmed : is_armed gw.kill ≡ false
  pub capable : capability_denied gw req ≡ false
  pub audited : (enforced w d gw req).failure ≡ none
  pub unblocked : (enforced w d gw req).eval.should_block ≡ false
  pub still_disarmed : is_armed (gate w d gw req).0.kill ≡ false

-- The token guard after a gate that handed out a token, and the token.
abbrev pub Issued : Draws → SentinelGateway → GateRequest → SentinelGateway → ExecuteToken → Type 0
Issued d gw req after tok =
    (after.executor ≡ (issue gw.executor req.action d.token_bytes d.issued_at).0)
    × (tok ≡ new_token gw.executor req.action d.token_bytes d.issued_at)

respond_token :
    (d : Draws) (gw : SentinelGateway) (req : GateRequest) (eval : RiskEvaluation)
    (rec : AuditRecord) (entry : ProofEntry) (tok : ExecuteToken)
    → (respond d gw req eval rec entry).1.token ≡ some tok
    → (eval.should_block ≡ false)
      × (((respond d gw req eval rec entry).0.kill ≡ gw.kill)
          × Issued d gw req (respond d gw req eval rec entry).0 tok)
unfolding respond issue
respond_token d gw req eval rec entry tok h = ground arith

conclude_token :
    (w : World) (d : Draws) (gw : SentinelGateway) (req : GateRequest) (eval : RiskEvaluation)
    (rec : AuditRecord) (tok : ExecuteToken)
    → token_of (conclude w d gw req eval rec).1.body ≡ some tok
    → (eval.should_block ≡ false)
      × ((is_armed (conclude w d gw req eval rec).0.kill ≡ false)
          × Issued d gw req (conclude w d gw req eval rec).0 tok)
unfolding conclude auto_armed_response
conclude_token w d gw req eval rec tok h =
    let (proof, entry) = append w.services gw.proof rec d.batched_at in
    let kill = count_risk gw.kill gw.guard.cfg.risk_threshold eval.score d.counted_at in
    ground
      (arith, respond_token d (record gw { proof = proof; kill = kill }) req eval rec entry tok)

pub settle_token :
    (w : World) (d : Draws) (gw : SentinelGateway) (req : GateRequest) (e : Enforcement)
    (failure : Option Text) (tok : ExecuteToken)
    → token_of (settle w d gw req e failure).1.body ≡ some tok
    → (failure ≡ none)
      × ((e.eval.should_block ≡ false)
          × ((is_armed (settle w d gw req e failure).0.kill ≡ false)
              × Issued d gw req (settle w d gw req e failure).0 tok))
settle_token w d gw req e (some why) tok h = absurd (ground arith)
settle_token w d gw req e none tok h = (refl, conclude_token w d gw req e.eval e.audit tok h)

pub gate_token :
    (w : World) (d : Draws) (gw : SentinelGateway) (req : GateRequest) (tok : ExecuteToken)
    → token_of (gate w d gw req).1.body ≡ some tok
    → (is_armed gw.kill ≡ false)
      × ((capability_denied gw req ≡ false) × (gate w d gw req ≡ enforce_and_settle w d gw req))
unfolding gate armed_refusal capability_refusal
gate_token w d gw req tok h = ground arith

-- A token leaves the gate only if the kill switch was not armed before the request and is not after
-- it, the sandbox allows the capability to the agent that the request names, the audit record was
-- written, and the evaluation does not block.
pub gate_token-IsClear :
    (w : World) (d : Draws) (gw : SentinelGateway) (req : GateRequest) (tok : ExecuteToken)
    → token_of (gate w d gw req).1.body ≡ some tok
    → IsClear w d gw req
unfolding enforce_and_settle
gate_token-IsClear w d gw req tok h =
    let (disarmed, (capable, same)) = gate_token w d gw req tok h in
    let e : Enforcement = enforced w d gw req in
    let (audited, (unblocked, (still, issued))) =
      settle_token w d (record gw { audit_log = e.log }) req e e.failure tok (cc) in
    record {
      disarmed = disarmed;
      capable = capable;
      audited = audited;
      unblocked = unblocked;
      still_disarmed = cc;
    }
