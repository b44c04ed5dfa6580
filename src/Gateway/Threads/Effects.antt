-- ===== src/Gateway/Threads/Effects.antt =====
-- What one step of a handler does with execution tokens: it leaves them alone, grants one in its
-- reply, or redeems one.
use sentinel_protocol.Base.{
  ℕ, ◌≡◌, refl, ◌∙◌, Bool, Option, none, some, if◌then◌else◌, Fallible, ok, err, if_both, arith,
}
use sentinel_protocol.Text.{Text}
use sentinel_protocol.Guard.Config.{RiskEvaluation, AuditRecord}
use sentinel_protocol.Guard.Audit.{Enforcement, enforce}
use sentinel_protocol.KillSwitch.{is_armed}
use sentinel_protocol.Executor.{ExecuteToken, ExecuteGuard, issue, redeem, redeem_found, after}
use sentinel_protocol.Executor.OneTime.{token_at}
use sentinel_protocol.Approval.{ApprovalChallenge}
use sentinel_protocol.ProofChain.{ProofEntry}
use sentinel_protocol.Gateway.{
  SentinelGateway, World, Draws, GateRequest, GateResponse, ExecuteRequest, gated, Reply, reply,
}
use sentinel_protocol.Gateway.Gate.{
  armed_refusal, capability_refusal, auto_armed_response, respond, capability_denied, is_hard_block,
}
use sentinel_protocol.Gateway.Serve.{after_confirm, after_redeem}
use sentinel_protocol.Gateway.Granted.{token_of}
use sentinel_protocol.Gateway.Threads.{
  Pc, idle, gate_entry, gate_armed, gate_cleared, gate_capable, gate_recorded, gate_chained,
  gate_counted, gate_passed, start_entry, confirm_entry, confirm_decided, execute_entry,
  proof_entry, proof_counted, proof_verified, proof_found, status_entry, status_switch,
  status_pending, status_counted, status_verified, arm_entry, disarm_entry, switch_set, executed_as,
  done, entry, after_enforce, executed_pc, advance,
}

-- The draws of a handler that has begun.
abbrev pub draws_of : Pc → Option Draws
draws_of idle = none
draws_of (gate_entry d req) = some d
draws_of (gate_armed d) = some d
draws_of (gate_cleared d req) = some d
draws_of (gate_capable d req) = some d
draws_of (gate_recorded d req eval rec) = some d
draws_of (gate_chained d req eval rec entry) = some d
draws_of (gate_counted d req eval rec entry) = some d
draws_of (gate_passed d req eval rec entry) = some d
draws_of (start_entry d req) = some d
draws_of (confirm_entry d req) = some d
draws_of (confirm_decided d result) = some d
draws_of (execute_entry d req) = some d
draws_of (proof_entry d) = some d
draws_of (proof_counted d n) = some d
draws_of (proof_verified d n b) = some d
draws_of (proof_found d n b p) = some d
draws_of (status_entry d) = some d
draws_of (status_switch d ks) = some d
draws_of (status_pending d ks n) = some d
draws_of (status_counted d ks n m) = some d
draws_of (status_verified d ks n m b) = some d
draws_of (arm_entry d reason) = some d
draws_of (disarm_entry d) = some d
draws_of (switch_set d) = some d
draws_of (executed_as d id r) = some d
draws_of (done d r) = some d

-- The token in the reply of a handler that has finished, and the identifier that it redeemed.
abbrev pub granted_by : Pc → Option ExecuteToken
granted_by (done d r) = token_of r.body
granted_by _ = none

abbrev pub executed_by : Pc → Option Text
executed_by (executed_as d id r) = some id
executed_by _ = none

pub data Touch (eg : ExecuteGuard) (pc : Pc) (eg' : ExecuteGuard) (pc' : Pc) : Type 0 where
  rests :
      eg' ≡ eg
      → draws_of pc' ≡ draws_of pc
      → granted_by pc' ≡ granted_by pc
      → executed_by pc' ≡ executed_by pc
      → Touch eg pc eg' pc'
  grants :
      (d : Draws) (action : Text)
      → eg' ≡ (issue eg action d.token_bytes d.issued_at).0
      → draws_of pc ≡ some d
      → draws_of pc' ≡ some d
      → granted_by pc ≡ none
      → granted_by pc' ≡ some (issue eg action d.token_bytes d.issued_at).1
      → executed_by pc ≡ none
      → executed_by pc' ≡ none
      → Touch eg pc eg' pc'
  spends :
      (id : Text) (now : ℕ) (tok : ExecuteToken)
      → (redeem eg id now).1 ≡ ok tok
      → eg' ≡ (redeem eg id now).0
      → draws_of pc' ≡ draws_of pc
      → granted_by pc' ≡ granted_by pc
      → executed_by pc ≡ none
      → executed_by pc' ≡ some id
      → Touch eg pc eg' pc'

-- Two goals of a handler, of which a test takes one.
if_Touch :
    (eg eg' : ExecuteGuard) (pc : Pc) (b : Bool) (p q : Pc)
    → Touch eg pc eg' p
    → Touch eg pc eg' q
    → Touch eg pc eg' (if b then p else q)
if_Touch eg eg' pc b p q hp hq = if_both (Touch eg pc eg') b p q hp hq

respond-Touch :
    (d : Draws) (gw : SentinelGateway) (req : GateRequest) (eval : RiskEvaluation)
    (rec : AuditRecord) (entry : ProofEntry)
    → let (after, resp) = respond d gw req eval rec entry in
      Touch gw.executor
        (gate_passed d req eval rec entry)
        after.executor
        (done d (reply 200 (gated resp)))
unfolding respond
respond-Touch d gw req eval rec entry =
    if_both touched eval.should_block _ _
      (if_both touched (is_hard_block eval) _ _ (rests refl refl refl refl)
        (rests refl refl refl refl))
      (grants d req.action refl refl refl refl refl refl refl)
  where
    touched : SentinelGateway × GateResponse → Type 0
    touched r =
        Touch gw.executor (gate_passed d req eval rec entry) r.0.executor
          (done d (reply 200 (gated r.1)))

after_confirm-Touch :
    (d : Draws) (gw : SentinelGateway) (result : Fallible ApprovalChallenge)
    → let (after, r) = after_confirm d gw result in
      Touch gw.executor (confirm_decided d result) after.executor (done d r)
unfolding after_confirm
after_confirm-Touch d gw (err e) = rests refl refl refl refl
after_confirm-Touch d gw (ok ch) =
    if_both
      (λ (r : SentinelGateway × Reply).
        Touch gw.executor (confirm_decided d (ok ch)) r.0.executor (done d r.1))
      _ _ _ (grants d ch.action refl refl refl refl refl refl refl) (rests refl refl refl refl)

redeem_found-same :
    (eg : ExecuteGuard) (id : Text) (now : ℕ) (o : Option ExecuteToken) (e : Text)
    → (redeem_found eg id now o).1 ≡ err e
    → (redeem_found eg id now o).0 ≡ eg
unfolding redeem_found
redeem_found-same eg id now none e h = refl
redeem_found-same eg id now (some tok) e h = ground arith

redeem-Touch :
    (w : World) (d : Draws) (gw : SentinelGateway) (eg' : ExecuteGuard) (req : ExecuteRequest)
    (now : ℕ) (result : Fallible ExecuteToken)
    → eg' ≡ (redeem gw.executor req.token_id now).0
    → (redeem gw.executor req.token_id now).1 ≡ result
    → Touch gw.executor (execute_entry d req) eg' (executed_pc w d gw req result)
unfolding redeem after_redeem
redeem-Touch w d gw eg' req now (err e) state h =
    rests
      (state
        ∙ redeem_found-same gw.executor req.token_id now (token_at gw.executor req.token_id) e h)
      refl refl refl
redeem-Touch w d gw eg' req now (ok tok) state h =
    spends req.token_id now tok h state refl refl refl refl

enforced-Touch :
    (eg : ExecuteGuard) (d : Draws) (req : GateRequest) (e : Enforcement) (failure : Option Text)
    → Touch eg (gate_capable d req) eg (after_enforce d req e failure)
enforced-Touch eg d req e (some why) = rests refl refl refl refl
enforced-Touch eg d req e none = rests refl refl refl refl

-- Every step of a handler.
pub advance-Touch :
    (w : World) (gw : SentinelGateway) (pc : Pc)
    → let (gw', pc') = advance w gw pc in Touch gw.executor pc gw'.executor pc'
unfolding advance armed_refusal capability_refusal auto_armed_response
advance-Touch w gw idle = rests refl refl refl refl
advance-Touch w gw (gate_entry d req) =
    if_Touch gw.executor gw.executor (gate_entry d req) (is_armed gw.kill) (gate_armed d)
      (gate_cleared d req) (rests refl refl refl refl) (rests refl refl refl refl)
advance-Touch w gw (gate_armed d) = rests refl refl refl refl
advance-Touch w gw (gate_cleared d req) =
    if_Touch gw.executor gw.executor (gate_cleared d req) (capability_denied gw req)
      (done d (reply 403 (gated (capability_refusal req)))) (gate_capable d req)
      (rests refl refl refl refl) (rests refl refl refl refl)
advance-Touch w gw (gate_capable d req) =
    let e : Enforcement =
      enforce w.outside gw.guard d.evaluated_at req.action req.prompt gw.audit_log in
    enforced-Touch gw.executor d req e e.failure
advance-Touch w gw (gate_recorded d req eval rec) = rests refl refl refl refl
advance-Touch w gw (gate_chained d req eval rec entry) = rests refl refl refl refl
advance-Touch w gw (gate_counted d req eval rec entry) =
    if_Touch gw.executor gw.executor (gate_counted d req eval rec entry) (is_armed gw.kill)
      (done d (reply 200 (gated (auto_armed_response eval rec entry))))
      (gate_passed d req eval rec entry) (rests refl refl refl refl) (rests refl refl refl refl)
advance-Touch w gw (gate_passed d req eval rec entry) = respond-Touch d gw req eval rec entry
advance-Touch w gw (start_entry d req) = rests refl refl refl refl
advance-Touch w gw (confirm_entry d req) = rests refl refl refl refl
advance-Touch w gw (confirm_decided d result) = after_confirm-Touch d gw result
advance-Touch w gw (execute_entry d req) =
    redeem-Touch w d gw _ req d.issued_at (redeem gw.executor req.token_id d.issued_at).1 refl refl
advance-Touch w gw (proof_entry d) = rests refl refl refl refl
advance-Touch w gw (proof_counted d n) = rests refl refl refl refl
advance-Touch w gw (proof_verified d n b) = rests refl refl refl refl
advance-Touch w gw (proof_found d n b p) = rests refl refl refl refl
advance-Touch w gw (status_entry d) = rests refl refl refl refl
advance-Touch w gw (status_switch d ks) = rests refl refl refl refl
advance-Touch w gw (status_pending d ks n) = rests refl refl refl refl
advance-Touch w gw (status_counted d ks n m) = rests refl refl refl refl
advance-Touch w gw (status_verified d ks n m b) = rests refl refl refl refl
advance-Touch w gw (arm_entry d reason) = rests refl refl refl refl
advance-Touch w gw (disarm_entry d) = rests refl refl refl refl
advance-Touch w gw (switch_set d) = rests refl refl refl refl
advance-Touch w gw (executed_as d id r) = rests refl refl refl refl
advance-Touch w gw (done d r) = rests refl refl refl refl
