-- ===== src/Gateway/Threads/Challenges.antt =====
-- What one step of a handler does with approval challenges: it leaves them alone, starts one, or
-- tries to decide one.
use sentinel_protocol.Base.{
  ℕ, ◌≡◌, refl, Bool, true, false, Option, none, some, if◌then◌else◌, Fallible, ok, err, if_both, ℤ,
}
use sentinel_protocol.Text.{Text}
use sentinel_protocol.Guard.Config.{RiskEvaluation, AuditRecord}
use sentinel_protocol.Guard.Audit.{Enforcement, enforce}
use sentinel_protocol.KillSwitch.{is_armed}
use sentinel_protocol.Executor.{ExecuteToken, issue, redeem}
use sentinel_protocol.Approval.{ApprovalChallenge, ApprovalService, start_challenge, confirm}
use sentinel_protocol.ProofChain.{ProofEntry}
use sentinel_protocol.Gateway.{
  SentinelGateway, World, Draws, GateRequest, GateResponse, ExecuteRequest, Body, gated, confirmed,
  Reply, reply,
}
use sentinel_protocol.Gateway.Gate.{
  armed_refusal, capability_refusal, auto_armed_response, respond, capability_denied, is_hard_block,
}
use sentinel_protocol.Gateway.Serve.{after_confirm, after_redeem, is_approved}
use sentinel_protocol.Gateway.Threads.{
  Pc, idle, gate_entry, gate_armed, gate_cleared, gate_capable, gate_recorded, gate_chained,
  gate_counted, gate_passed, start_entry, confirm_entry, confirm_decided, execute_entry,
  proof_entry, proof_counted, proof_verified, proof_found, status_entry, status_switch,
  status_pending, status_counted, status_verified, arm_entry, disarm_entry, switch_set, executed_as,
  done, after_enforce, executed_pc, advance,
}
use sentinel_protocol.Gateway.Threads.Effects.{draws_of}

-- The identifier of the challenge that a handler decided.
abbrev decided_in : Body → Option Text
decided_in (confirmed ch tok) = some ch.id
decided_in _ = none

abbrev pub decided_as : Fallible ApprovalChallenge → Option Text
decided_as (ok ch) = some ch.id
decided_as (err e) = none

abbrev pub decided_by : Pc → Option Text
decided_by (confirm_decided d result) = decided_as result
decided_by (done d r) = decided_in r.body
decided_by _ = none

abbrev pub is_done : Pc → Bool
is_done (done d r) = true
is_done _ = false

pub data Ask (svc : ApprovalService) (pc : Pc) (svc' : ApprovalService) (pc' : Pc) : Type 0 where
  rests :
      svc' ≡ svc
      → draws_of pc' ≡ draws_of pc
      → decided_by pc' ≡ decided_by pc
      → ((is_done pc ≡ true) → (is_done pc' ≡ true))
      → Ask svc pc svc' pc'
  asks :
      (d : Draws) (action prompt : Text) (score : ℤ)
      → svc' ≡ (start_challenge svc action prompt score d.challenge_id d.started_at).0
      → draws_of pc ≡ some d
      → draws_of pc' ≡ some d
      → decided_by pc ≡ none
      → decided_by pc' ≡ none
      → is_done pc ≡ false
      → is_done pc' ≡ true
      → Ask svc pc svc' pc'
  tries :
      (id : Text) (approves : Bool) (who : Text) (now decided : ℕ)
      (result : Fallible ApprovalChallenge)
      → svc' ≡ (confirm svc id approves who now decided).0
      → (confirm svc id approves who now decided).1 ≡ result
      → draws_of pc' ≡ draws_of pc
      → decided_by pc ≡ none
      → decided_by pc' ≡ decided_as result
      → is_done pc ≡ false
      → Ask svc pc svc' pc'

if_Ask :
    (svc svc' : ApprovalService) (pc : Pc) (b : Bool) (p q : Pc)
    → Ask svc pc svc' p
    → Ask svc pc svc' q
    → Ask svc pc svc' (if b then p else q)
if_Ask svc svc' pc b p q hp hq = if_both (Ask svc pc svc') b p q hp hq

respond-Ask :
    (d : Draws) (gw : SentinelGateway) (req : GateRequest) (eval : RiskEvaluation)
    (rec : AuditRecord) (link : ProofEntry)
    → let (after, resp) = respond d gw req eval rec link in
      Ask gw.approval
        (gate_passed d req eval rec link)
        after.approval
        (done d (reply 200 (gated resp)))
unfolding respond
respond-Ask d gw req eval rec link =
    if_both asked eval.should_block _ _
      (if_both asked (is_hard_block eval) _ _ (rests refl refl refl (λ h. refl))
        (asks d req.action req.prompt eval.score refl refl refl refl refl refl refl))
      (rests refl refl refl (λ h. refl))
  where
    asked : SentinelGateway × GateResponse → Type 0
    asked r =
        Ask gw.approval (gate_passed d req eval rec link) r.0.approval
          (done d (reply 200 (gated r.1)))

after_confirm-Ask :
    (d : Draws) (gw : SentinelGateway) (result : Fallible ApprovalChallenge)
    → let (after, r) = after_confirm d gw result in
      Ask gw.approval (confirm_decided d result) after.approval (done d r)
unfolding after_confirm
after_confirm-Ask d gw (err e) = rests refl refl refl (λ h. refl)
after_confirm-Ask d gw (ok ch) =
    let (executor, tok) = issue gw.executor ch.action d.token_bytes d.issued_at in
    if_both
      (λ (r : SentinelGateway × Reply).
        Ask gw.approval (confirm_decided d (ok ch)) r.0.approval (done d r.1))
      (is_approved ch.status)
      (record gw { executor = executor }, reply 200 (confirmed ch (some tok)))
      (gw, reply 200 (confirmed ch none)) (rests refl refl refl (λ h. refl))
      (rests refl refl refl (λ h. refl))

redeemed-Ask :
    (w : World) (gw : SentinelGateway) (d : Draws) (req : ExecuteRequest)
    (result : Fallible ExecuteToken)
    → Ask gw.approval (execute_entry d req) gw.approval (executed_pc w d gw req result)
unfolding after_redeem
redeemed-Ask w gw d req (err e) = rests refl refl refl (λ h. refl)
redeemed-Ask w gw d req (ok tok) = rests refl refl refl (λ h. cc)

enforced-Ask :
    (svc : ApprovalService) (d : Draws) (req : GateRequest) (e : Enforcement)
    (failure : Option Text)
    → Ask svc (gate_capable d req) svc (after_enforce d req e failure)
enforced-Ask svc d req e (some why) = rests refl refl refl (λ h. refl)
enforced-Ask svc d req e none = rests refl refl refl (λ h. cc)

-- Every step of a handler.
pub advance-Ask :
    (w : World) (gw : SentinelGateway) (pc : Pc)
    → let (gw', pc') = advance w gw pc in Ask gw.approval pc gw'.approval pc'
unfolding advance armed_refusal capability_refusal auto_armed_response
advance-Ask w gw idle = rests refl refl refl (λ h. h)
advance-Ask w gw (gate_entry d req) =
    if_Ask gw.approval gw.approval (gate_entry d req) (is_armed gw.kill) (gate_armed d)
      (gate_cleared d req) (rests refl refl refl (λ h. cc)) (rests refl refl refl (λ h. cc))
advance-Ask w gw (gate_armed d) = rests refl refl refl (λ h. cc)
advance-Ask w gw (gate_cleared d req) =
    if_Ask gw.approval gw.approval (gate_cleared d req) (capability_denied gw req)
      (done d (reply 403 (gated (capability_refusal req)))) (gate_capable d req)
      (rests refl refl refl (λ h. cc)) (rests refl refl refl (λ h. cc))
advance-Ask w gw (gate_capable d req) =
    let e : Enforcement =
      enforce w.outside gw.guard d.evaluated_at req.action req.prompt gw.audit_log in
    enforced-Ask gw.approval d req e e.failure
advance-Ask w gw (gate_recorded d req eval rec) = rests refl refl refl (λ h. cc)
advance-Ask w gw (gate_chained d req eval rec link) = rests refl refl refl (λ h. cc)
advance-Ask w gw (gate_counted d req eval rec link) =
    if_Ask gw.approval gw.approval (gate_counted d req eval rec link) (is_armed gw.kill)
      (done d (reply 200 (gated (auto_armed_response eval rec link))))
      (gate_passed d req eval rec link) (rests refl refl refl (λ h. cc))
      (rests refl refl refl (λ h. cc))
advance-Ask w gw (gate_passed d req eval rec link) = respond-Ask d gw req eval rec link
advance-Ask w gw (start_entry d req) =
    asks d req.action req.prompt req.score refl refl refl refl refl refl refl
advance-Ask w gw (confirm_entry d req) =
    tries req.challenge_id req.approves req.decided_by d.started_at d.decided_at
      (confirm gw.approval req.challenge_id req.approves req.decided_by d.started_at d.decided_at).1
      refl refl refl refl refl refl
advance-Ask w gw (confirm_decided d result) = after_confirm-Ask d gw result
advance-Ask w gw (execute_entry d req) =
    redeemed-Ask w gw d req (redeem gw.executor req.token_id d.issued_at).1
advance-Ask w gw (proof_entry d) = rests refl refl refl (λ h. cc)
advance-Ask w gw (proof_counted d n) = rests refl refl refl (λ h. cc)
advance-Ask w gw (proof_verified d n b) = rests refl refl refl (λ h. cc)
advance-Ask w gw (proof_found d n b p) = rests refl refl refl (λ h. cc)
advance-Ask w gw (status_entry d) = rests refl refl refl (λ h. cc)
advance-Ask w gw (status_switch d ks) = rests refl refl refl (λ h. cc)
advance-Ask w gw (status_pending d ks n) = rests refl refl refl (λ h. cc)
advance-Ask w gw (status_counted d ks n m) = rests refl refl refl (λ h. cc)
advance-Ask w gw (status_verified d ks n m b) = rests refl refl refl (λ h. cc)
advance-Ask w gw (arm_entry d reason) = rests refl refl refl (λ h. cc)
advance-Ask w gw (disarm_entry d) = rests refl refl refl (λ h. cc)
advance-Ask w gw (switch_set d) = rests refl refl refl (λ h. cc)
advance-Ask w gw (executed_as d id r) = rests refl refl refl (λ h. h)
advance-Ask w gw (done d r) = rests refl refl refl (λ h. h)
