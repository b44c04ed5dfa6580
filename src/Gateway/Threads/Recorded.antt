-- ===== src/Gateway/Threads/Recorded.antt =====
-- What stands behind a token from the gate, however the handlers interleave: the sandbox let the
-- request pass, Enforce wrote its record and did not block it, and the record is in the proof chain.
use sentinel_protocol.Base.{
  sym, ℕ, ◌≡◌, refl, true, false, Bool, none, some, if◌then◌else◌, if_both_by, arith, subst,
}
use sentinel_protocol.Guard.Audit.{enforce}
use sentinel_protocol.KillSwitch.{is_armed}
use sentinel_protocol.Executor.{ExecuteToken, redeem}
use sentinel_protocol.Gateway.{
  SentinelGateway, World, Draws, GateRequest, GateResponse, gated, reply,
}
use sentinel_protocol.Gateway.Gate.{
  capability_denied, armed_refusal, capability_refusal, auto_armed_response,
}
use sentinel_protocol.Gateway.Serve.{
  Request, gates, starts_approval, confirms_approval, executes, asks_proof, asks_status,
  arms_kill_switch, disarms_kill_switch, asks_health,
}
use sentinel_protocol.Gateway.Threads.{
  Pc, idle, gate_entry, gate_armed, gate_cleared, gate_capable, gate_recorded, gate_chained,
  gate_counted, gate_passed, start_entry, confirm_entry, confirm_decided, execute_entry,
  proof_entry, proof_counted, proof_verified, proof_found, status_entry, status_switch,
  status_pending, status_counted, status_verified, arm_entry, disarm_entry, switch_set, executed_as,
  done, entry, advance, System, Reach,
}
use sentinel_protocol.Gateway.Threads.Shared.{advance-Runs}
use sentinel_protocol.Gateway.Threads.Facts.{
  chained, answered, fact_of, IsAllowed, IsAsked, Holds, Runs-Holds,
}
use sentinel_protocol.Gateway.Threads.Parts.{
  respond-Holds, enforced-Holds, recorded-Holds, after_confirm-Holds, redeemed-Holds,
}
use sentinel_protocol.Gateway.Threads.Every.{Asked, asked_of, reach_each}

if_Holds :
    (w : World) (o : Asked) (gw : SentinelGateway) (b : Bool) (p q : Pc)
    → (b ≡ true → Holds w o gw (fact_of p))
    → (b ≡ false → Holds w o gw (fact_of q))
    → Holds w o gw (fact_of (if b then p else q))
if_Holds w o gw b p q hp hq = if_both_by (λ pc. Holds w o gw (fact_of pc)) b p q hp hq

no_token :
    (w : World) (o : Asked) (gw : SentinelGateway) (d : Draws) (resp : GateResponse)
    → resp.token ≡ none
    → Holds w o gw (answered d resp)
no_token w o gw d resp h = λ tok given. absurd (ground (arith, h, given))

-- One step of a handler keeps what is known of it.
advance-Holds :
    (w : World) (o : Asked) (gw : SentinelGateway) (pc : Pc)
    → Holds w o gw (fact_of pc)
    → let (gw', pc') = advance w gw pc in Holds w o gw' (fact_of pc')
unfolding advance armed_refusal capability_refusal auto_armed_response
advance-Holds w o gw idle h = tt
advance-Holds w o gw (gate_entry d req) h =
    if_Holds w o gw (is_armed gw.kill) (gate_armed d) (gate_cleared d req) (λ armed. tt)
      (λ clear. h)
advance-Holds w o gw (gate_armed d) h = no_token w o gw d (armed_refusal gw.kill) refl
advance-Holds w o gw (gate_cleared d req) h =
    if_Holds w o gw (capability_denied gw req) (done d (reply 403 (gated (capability_refusal req))))
      (gate_capable d req) (λ denied. no_token w o gw d (capability_refusal req) refl)
      (λ clear. (h, clear))
advance-Holds w o gw (gate_capable d req) h =
    enforced-Holds w o gw d req h.0 h.1
      (enforce w.outside gw.guard d.evaluated_at req.action req.prompt gw.audit_log).failure refl
advance-Holds w o gw (gate_recorded d req eval rec) h = recorded-Holds w o gw d req eval rec h
advance-Holds w o gw (gate_chained d req eval rec link) h =
    Runs-Holds w o gw _ (chained d req eval rec link)
      (advance-Runs w gw (gate_chained d req eval rec link)) h
advance-Holds w o gw (gate_counted d req eval rec link) h =
    if_Holds w o gw (is_armed gw.kill)
      (done d (reply 200 (gated (auto_armed_response eval rec link))))
      (gate_passed d req eval rec link)
      (λ armed. no_token w o gw d (auto_armed_response eval rec link) refl) (λ passes. h)
advance-Holds w o gw (gate_passed d req eval rec link) h =
    respond-Holds w o d gw req eval rec link h
advance-Holds w o gw (start_entry d req) h = tt
advance-Holds w o gw (confirm_entry d req) h = tt
advance-Holds w o gw (confirm_decided d result) h = after_confirm-Holds w o d gw result
advance-Holds w o gw (execute_entry d req) h =
    redeemed-Holds w o gw (advance w gw (execute_entry d req)).0 d req
      (redeem gw.executor req.token_id d.issued_at).1
advance-Holds w o gw (proof_entry d) h = tt
advance-Holds w o gw (proof_counted d n) h = tt
advance-Holds w o gw (proof_verified d n b) h = tt
advance-Holds w o gw (proof_found d n b p) h = tt
advance-Holds w o gw (status_entry d) h = tt
advance-Holds w o gw (status_switch d ks) h = tt
advance-Holds w o gw (status_pending d ks n) h = tt
advance-Holds w o gw (status_counted d ks n m) h = tt
advance-Holds w o gw (status_verified d ks n m b) h = tt
advance-Holds w o gw (arm_entry d reason) h = tt
advance-Holds w o gw (disarm_entry d) h = tt
advance-Holds w o gw (switch_set d) h = tt
advance-Holds w o gw (executed_as d id r) h = tt
advance-Holds w o gw (done d r) h = h

entry-Holds :
    (w : World) (gw : SentinelGateway) (d : Draws) (r : Request)
    → Holds w (some (d, r)) gw (fact_of (entry d r))
unfolding entry
entry-Holds w gw d (gates false body) = tt
entry-Holds w gw d (gates true none) = tt
entry-Holds w gw d (gates true (some req)) = refl
entry-Holds w gw d (starts_approval false body) = tt
entry-Holds w gw d (starts_approval true none) = tt
entry-Holds w gw d (starts_approval true (some req)) = tt
entry-Holds w gw d (confirms_approval false body) = tt
entry-Holds w gw d (confirms_approval true none) = tt
entry-Holds w gw d (confirms_approval true (some req)) = tt
entry-Holds w gw d (executes false body) = tt
entry-Holds w gw d (executes true none) = tt
entry-Holds w gw d (executes true (some req)) = tt
entry-Holds w gw d (asks_proof false) = tt
entry-Holds w gw d (asks_proof true) = tt
entry-Holds w gw d (asks_status false) = tt
entry-Holds w gw d (asks_status true) = tt
entry-Holds w gw d (arms_kill_switch false reason) = tt
entry-Holds w gw d (arms_kill_switch true reason) = tt
entry-Holds w gw d (disarms_kill_switch false) = tt
entry-Holds w gw d (disarms_kill_switch true) = tt
entry-Holds w gw d asks_health = tt

Reach-Holds :
    {w : World} {gw : SentinelGateway} {s : System} (j : ℕ) (r : Reach w gw s)
    → Holds w (asked_of r j) s.gw (fact_of (s.threads j))
Reach-Holds {w} {gw} j r =
    reach_each w gw (λ o g p. Holds w o g (fact_of p)) (λ g. tt) (λ g d req. entry-Holds w g d req)
      (λ t i o _ held. advance-Holds w o t.gw (t.threads i) held)
      (λ g g' o p runs held. Runs-Holds w o g g' (fact_of p) runs held) j r

same_asked :
    (o : Asked) (d e : Draws) (req got : GateRequest)
    → IsAsked o d req
    → IsAsked o e got
    → (d ≡ e) × (req ≡ got)
same_asked o d e req got h k = (ground (arith, h, k), ground (arith, h, k))

-- However the handlers interleave: when one that was asked for a gate has finished with a token, the
-- sandbox of the gateway lets that request pass, Enforce wrote a record of it and did not block it,
-- the reply says ALLOW with the score and the record's hash, the proof chain holds that hash at the
-- index that the reply names, and the token is for the action that was asked for.
pub interleaved_allow_is_recorded :
    (w : World) (gw : SentinelGateway) (s : System) (k code : ℕ) (d e : Draws) (req : GateRequest)
    (resp : GateResponse) (tok : ExecuteToken) (r : Reach w gw s)
    → asked_of r k ≡ some (d, gates true (some req))
    → s.threads k ≡ done e (reply code (gated resp))
    → resp.token ≡ some tok
    → (d ≡ e) × IsAllowed w s.gw d req resp tok
interleaved_allow_is_recorded w gw s k code d e req resp tok r asked at given =
    let (got, same, allowed) =
      subst (λ p. Holds w (asked_of r k) s.gw (fact_of p)) at (Reach-Holds k r) tok given in
    let (d_e, req_got) = same_asked (asked_of r k) d e req got asked same in
    (
      d_e,
      subst (λ x. IsAllowed w s.gw x req resp tok) (sym d_e)
          (subst (λ x. IsAllowed w s.gw e x resp tok) (sym req_got) allowed),
    )
