-- ===== src/Gateway/Threads/Reports.antt =====
-- What the proof and status replies say of the chain, when other handlers append to it meanwhile.
use sentinel_protocol.Base.{
  ℕ, ◌≡◌, true, false, Option, none, some, if_both, arith, subst, Fallible, ok, err,
}
use sentinel_protocol.Guard.Config.{SentinelGuard}
use sentinel_protocol.Text.{Text}
use sentinel_protocol.Guard.Audit.{Enforcement, enforce}
use sentinel_protocol.KillSwitch.{is_armed}
use sentinel_protocol.Executor.{ExecuteToken, redeem}
use sentinel_protocol.Approval.{ApprovalChallenge}
use sentinel_protocol.OpenClaw.{OpenClawClient}
use sentinel_protocol.ProofChain.{len, verify_chain}
use sentinel_protocol.ProofChain.Chain.{IsChained}
use sentinel_protocol.Gateway.{
  SentinelGateway, SentinelGatewayConfig, new_sentinel_gateway, World, Draws, GateRequest,
  ExecuteRequest, Reply,
}
use sentinel_protocol.Gateway.Gate.{capability_denied}
use sentinel_protocol.Gateway.Serve.{
  Request, gates, starts_approval, confirms_approval, executes, asks_proof, asks_status,
  arms_kill_switch, disarms_kill_switch, asks_health, after_confirm, after_redeem, is_approved,
}
use sentinel_protocol.Gateway.Threads.{
  Pc, idle, gate_entry, gate_armed, gate_cleared, gate_capable, gate_recorded, gate_chained,
  gate_counted, gate_passed, start_entry, confirm_entry, confirm_decided, execute_entry,
  proof_entry, proof_counted, proof_verified, proof_found, status_entry, status_switch,
  status_pending, status_counted, status_verified, arm_entry, disarm_entry, switch_set, executed_as,
  done, entry, after_enforce, executed_pc, advance, System, Reach,
}
use sentinel_protocol.Gateway.Threads.Every.{reach_each}
use sentinel_protocol.Gateway.Threads.Shared.{interleaved_chain_is_valid}
use sentinel_protocol.Gateway.Threads.Readings.{
  reading_in, reading_of, Agrees, Runs-Agrees, get_latest_proof-IsLatest,
}

abbrev Told : SentinelGateway → Pc → Type 0
Told gw p = Agrees gw (reading_of p)

entry-Told : (gw : SentinelGateway) (d : Draws) (r : Request) → Told gw (entry d r)
unfolding entry
entry-Told gw d (gates false body) = tt
entry-Told gw d (gates true none) = tt
entry-Told gw d (gates true (some req)) = tt
entry-Told gw d (starts_approval false body) = tt
entry-Told gw d (starts_approval true none) = tt
entry-Told gw d (starts_approval true (some req)) = tt
entry-Told gw d (confirms_approval false body) = tt
entry-Told gw d (confirms_approval true none) = tt
entry-Told gw d (confirms_approval true (some req)) = tt
entry-Told gw d (executes false body) = tt
entry-Told gw d (executes true none) = tt
entry-Told gw d (executes true (some req)) = tt
entry-Told gw d (asks_proof false) = tt
entry-Told gw d (asks_proof true) = tt
entry-Told gw d (asks_status false) = tt
entry-Told gw d (asks_status true) = tt
entry-Told gw d (arms_kill_switch false reason) = tt
entry-Told gw d (arms_kill_switch true reason) = tt
entry-Told gw d (disarms_kill_switch false) = tt
entry-Told gw d (disarms_kill_switch true) = tt
entry-Told gw d asks_health = tt

after_confirm-Told :
    (d : Draws) (gw : SentinelGateway) (result : Fallible ApprovalChallenge)
    → let (after, r) = after_confirm d gw result in Told after (done d r)
unfolding after_confirm
after_confirm-Told d gw (err e) = tt
after_confirm-Told d gw (ok ch) =
    if_both (λ (r : SentinelGateway × Reply). Told r.0 (done d r.1)) (is_approved ch.status) _ _ tt
      tt

executed-Told :
    (w : World) (gw after : SentinelGateway) (d : Draws) (req : ExecuteRequest)
    (result : Fallible ExecuteToken)
    → Told after (executed_pc w d gw req result)
unfolding after_redeem
executed-Told w gw after d req (err e) = tt
executed-Told w gw after d req (ok tok) = tt

enforced-Told :
    (gw : SentinelGateway) (d : Draws) (req : GateRequest) (e : Enforcement) (failure : Option Text)
    → Told gw (after_enforce d req e failure)
enforced-Told gw d req e (some why) = tt
enforced-Told gw d req e none = tt

advance-Told :
    (w : World) (gw : SentinelGateway) (pc : Pc)
    → IsChained w.services gw.proof
    → Told gw pc
    → let (gw', pc') = advance w gw pc in Told gw' pc'
unfolding advance len verify_chain
advance-Told w gw idle c h = tt
advance-Told w gw (gate_entry d req) c h =
    if_both (Told gw) (is_armed gw.kill) (gate_armed d) (gate_cleared d req) tt tt
advance-Told w gw (gate_armed d) c h = tt
advance-Told w gw (gate_cleared d req) c h =
    if_both (Told gw) (capability_denied gw req) _ (gate_capable d req) tt tt
advance-Told w gw (gate_capable d req) c h =
    let e : Enforcement =
      enforce w.outside gw.guard d.evaluated_at req.action req.prompt gw.audit_log in
    enforced-Told (record gw { audit_log = e.log }) d req e e.failure
advance-Told w gw (gate_recorded d req eval rec) c h = tt
advance-Told w gw (gate_chained d req eval rec link) c h = tt
advance-Told w gw (gate_counted d req eval rec link) c h =
    if_both (Told gw) (is_armed gw.kill) _ (gate_passed d req eval rec link) tt tt
advance-Told w gw (gate_passed d req eval rec link) c h = tt
advance-Told w gw (start_entry d req) c h = tt
advance-Told w gw (confirm_entry d req) c h = tt
advance-Told w gw (confirm_decided d result) c h = after_confirm-Told d gw result
advance-Told w gw (execute_entry d req) c h =
    executed-Told w gw (record gw { executor = (redeem gw.executor req.token_id d.issued_at).0 }) d
      req (redeem gw.executor req.token_id d.issued_at).1
advance-Told w gw (proof_entry d) c h = omega arith
advance-Told w gw (proof_counted d n) c h = (h, c.verified)
advance-Told w gw (proof_verified d n b) c (le, valid) =
    (le, valid, get_latest_proof-IsLatest w.services gw.proof n c le)
advance-Told w gw (proof_found d n b p) c h = h
advance-Told w gw (status_entry d) c h = tt
advance-Told w gw (status_switch d ks) c h = tt
advance-Told w gw (status_pending d ks n) c h = omega arith
advance-Told w gw (status_counted d ks n m) c h = (h, c.verified)
advance-Told w gw (status_verified d ks n m b) c h = h
advance-Told w gw (arm_entry d reason) c h = tt
advance-Told w gw (disarm_entry d) c h = tt
advance-Told w gw (switch_set d) c h = tt
advance-Told w gw (executed_as d id r) c h = tt
advance-Told w gw (done d r) c h = h

Reach-Told :
    (w : World) (guard : SentinelGuard) (oc : Option OpenClawClient) (cfg : SentinelGatewayConfig)
    (s : System) (j : ℕ)
    → Reach w (new_sentinel_gateway guard oc cfg) s
    → Told s.gw (s.threads j)
Reach-Told w guard oc cfg s j r =
    reach_each w (new_sentinel_gateway guard oc cfg) (λ _. Told) (λ g. tt) entry-Told
      (λ t i _ before told.
        advance-Told w t.gw (t.threads i) (interleaved_chain_is_valid w guard oc cfg t before).0
          told)
      (λ g g' _ p runs told. Runs-Agrees w g g' (reading_of p) runs told) j r

-- However handlers interleave, a finished proof reply says that the chain is valid, counts no more
-- entries than the chain has, and names an entry that stands in the chain at its index, with no fewer
-- entries up to it than the reply counts; it names none only if it counts none. A finished status
-- reply says that the chain is valid and counts no more entries than it has.
pub interleaved_reports_agree :
    (w : World) (guard : SentinelGuard) (oc : Option OpenClawClient) (cfg : SentinelGatewayConfig)
    (s : System) (i : ℕ) (d : Draws) (r : Reply)
    → Reach w (new_sentinel_gateway guard oc cfg) s
    → s.threads i ≡ done d r
    → Agrees s.gw (reading_in r.body)
interleaved_reports_agree w guard oc cfg s i d r reached at =
    subst (Told s.gw) at (Reach-Told w guard oc cfg s i reached)
