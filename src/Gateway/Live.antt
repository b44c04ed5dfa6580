-- ===== src/Gateway/Live.antt =====
-- Live gateways: their proof chains verify, an armed switch keeps its gates shut, and tokens that
-- were granted execute once.
use sentinel_protocol.Base.{
  ℕ, ◌≡◌, refl, ◌∙◌, true, false, Option, none, some, List, [], ◌∷◌, All, Fallible, ok, err,
  if_both,
}
use sentinel_protocol.Guard.Config.{SentinelGuard}
use sentinel_protocol.KillSwitch.{is_armed, arm}
use sentinel_protocol.Approval.{ApprovalChallenge}
use sentinel_protocol.OpenClaw.{OpenClawClient}
use sentinel_protocol.ProofChain.Chain.{IsChained}
use sentinel_protocol.ProofChain.Batches.{IsBatched}
use sentinel_protocol.Gateway.{
  SentinelGateway, SentinelGatewayConfig, new_sentinel_gateway, World, Draws, GateRequest, proven,
  reported, Reply, reply, ProofReport, StatusReport,
}
use sentinel_protocol.Gateway.Gate.{handle_gate, gate}
use sentinel_protocol.Gateway.Serve.{
  handle_approval_start, handle_approval_confirm, confirm_request, after_confirm, handle_execute,
  execute_request, handle_latest_proof, handle_status, handle_kill_switch_arm,
  handle_kill_switch_disarm, serve, tick, gates, starts_approval, confirms_approval, executes,
  asks_proof, asks_status, arms_kill_switch, disarms_kill_switch, asks_health, Happening, requests,
  ticks, happen, live,
}
use sentinel_protocol.Gateway.Runs.Requests.{live-Runs}
use sentinel_protocol.Gateway.Runs.Chains.{Runs-IsChained}

-- Whatever a new gateway is asked, its proof chain verifies, its batches partition the entries in
-- order but for fewer than a batch of them, and both reports of the chain's validity say true.
live_chain_is_valid :
    (w : World) (guard : SentinelGuard) (oc : Option OpenClawClient) (cfg : SentinelGatewayConfig)
    (hs : List Happening) (now : ℕ)
    → let gw = live w (new_sentinel_gateway guard oc cfg) hs in
      IsChained w.services gw.proof
      × IsBatched w.services gw.proof
      × ((p : ProofReport) × (handle_latest_proof w gw true ≡ reply 200 (proven p))
          × (p.chain_valid ≡ true))
      × ((s : StatusReport) × (handle_status w gw true now ≡ reply 200 (reported s))
          × (s.proof_chain_valid ≡ true))
unfolding handle_latest_proof handle_status
live_chain_is_valid w guard oc cfg hs now =
    let gw = live w (new_sentinel_gateway guard oc cfg) hs in
    let (chained, batched) =
      Runs-IsChained w guard oc cfg gw (live-Runs w (new_sentinel_gateway guard oc cfg) hs) in
    (chained, batched, (_, refl, chained.verified), (_, refl, chained.verified))

-- Anything but a request that disarms the switch.
abbrev pub KeepsArmed : Happening → Type 0
KeepsArmed (requests d (disarms_kill_switch true)) = ⊥
KeepsArmed _ = Unit {0}

-- What the gates write stays as it is, and the switch stays armed.
abbrev IsShut : SentinelGateway → SentinelGateway → Type 0
IsShut gw gw' =
    (is_armed gw'.kill ≡ true) × ((gw'.proof ≡ gw.proof) × (gw'.audit_log ≡ gw.audit_log))

gate-IsShut :
    (w : World) (d : Draws) (gw : SentinelGateway) (req : GateRequest)
    → is_armed gw.kill ≡ true
    → IsShut gw (gate w d gw req).0
unfolding gate
gate-IsShut w d gw req h = rw h (h, (refl, refl))

after_confirm-IsShut :
    (d : Draws) (gw : SentinelGateway) (result : Fallible ApprovalChallenge)
    → is_armed gw.kill ≡ true
    → IsShut gw (after_confirm d gw result).0
unfolding after_confirm
after_confirm-IsShut d gw (err e) h = (h, (refl, refl))
after_confirm-IsShut d gw (ok ch) h =
    if_both (λ (r : SentinelGateway × Reply). IsShut gw r.0) _ _ _ (h, (refl, refl))
      (h, (refl, refl))

happen-IsShut :
    (w : World) (gw : SentinelGateway) (h : Happening)
    → is_armed gw.kill ≡ true
    → KeepsArmed h
    → IsShut gw (happen w gw h)
unfolding happen tick serve handle_gate handle_approval_start handle_approval_confirm
    confirm_request handle_execute execute_request handle_kill_switch_arm handle_kill_switch_disarm
    arm is_armed
happen-IsShut w gw (ticks now) a k = (a, (refl, refl))
happen-IsShut w gw (requests d (gates false body)) a k = (a, (refl, refl))
happen-IsShut w gw (requests d (gates true none)) a k = (a, (refl, refl))
happen-IsShut w gw (requests d (gates true (some req))) a k = gate-IsShut w d gw req a
happen-IsShut w gw (requests d (starts_approval false body)) a k = (a, (refl, refl))
happen-IsShut w gw (requests d (starts_approval true none)) a k = (a, (refl, refl))
happen-IsShut w gw (requests d (starts_approval true (some req))) a k = (a, (refl, refl))
happen-IsShut w gw (requests d (confirms_approval false body)) a k = (a, (refl, refl))
happen-IsShut w gw (requests d (confirms_approval true none)) a k = (a, (refl, refl))
happen-IsShut w gw (requests d (confirms_approval true (some req))) a k =
    after_confirm-IsShut d _ _ a
happen-IsShut w gw (requests d (executes false body)) a k = (a, (refl, refl))
happen-IsShut w gw (requests d (executes true none)) a k = (a, (refl, refl))
happen-IsShut w gw (requests d (executes true (some req))) a k = (a, (refl, refl))
happen-IsShut w gw (requests d (asks_proof got)) a k = (a, (refl, refl))
happen-IsShut w gw (requests d (asks_status got)) a k = (a, (refl, refl))
happen-IsShut w gw (requests d (arms_kill_switch false reason)) a k = (a, (refl, refl))
happen-IsShut w gw (requests d (arms_kill_switch true reason)) a k = (refl, (refl, refl))
happen-IsShut w gw (requests d (disarms_kill_switch false)) a k = (a, (refl, refl))
happen-IsShut w gw (requests d (disarms_kill_switch true)) a k = absurd k
happen-IsShut w gw (requests d asks_health) a k = (a, (refl, refl))

-- From an armed gateway on, until a request disarms the switch: the switch stays armed, nothing is
-- added to the proof chain, and no audit record is written.
pub armed_gateway_stays_shut :
    (w : World) (gw : SentinelGateway) (hs : List Happening)
    → is_armed gw.kill ≡ true
    → All KeepsArmed hs
    → (is_armed (live w gw hs).kill ≡ true)
      × (((live w gw hs).proof ≡ gw.proof) × ((live w gw hs).audit_log ≡ gw.audit_log))
unfolding live
armed_gateway_stays_shut w gw [] a k = (a, (refl, refl))
armed_gateway_stays_shut w gw (h ∷ hs) a k =
    let (armed, (same, logged)) = happen-IsShut w gw h a k.0 in
    let (still, (same', logged')) = armed_gateway_stays_shut w (happen w gw h) hs armed k.1 in
    (still, (same' ∙ same, logged' ∙ logged))
