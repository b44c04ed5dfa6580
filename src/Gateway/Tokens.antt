-- ===== src/Gateway/Tokens.antt =====
-- From the gate to the proxy: what becomes of a token that the gate handed out.
use sentinel_protocol.Base.{
  All, subst, ℕ, ◌+◌, ◌≤◌, ◌≡◌, refl, ◌∙◌, ap, true, false, Option, none, some, List, [], arith,
  Fallible, ok, err, ◌++◌, ltb, if_both,
}
use sentinel_protocol.Text.{Text, text}
use sentinel_protocol.Guard.Audit.{Enforcement}
use sentinel_protocol.KillSwitch.{KillSwitch}
use sentinel_protocol.Executor.{
  ExecuteToken, ExecuteGuard, new_token, issue, redeem, run, after, Call, generate_token_id,
}
use sentinel_protocol.Executor.OneTime.{no_replay}
use sentinel_protocol.Executor.Lifecycle.{issued_redeems, LeavesAlone}
use sentinel_protocol.OpenClaw.{OpenClawClient, OpenClawResponse, Agents}
use sentinel_protocol.Gateway.{
  SentinelGateway, World, Draws, GateRequest, ExecuteResponse, executed, Reply, reply,
}
use sentinel_protocol.Gateway.Gate.{gate, enforce_and_settle}
use sentinel_protocol.Gateway.Serve.{execute_request, after_redeem, forward, dispatched}
use sentinel_protocol.Gateway.Granted.{token_of}
use sentinel_protocol.Gateway.Safety.{IsClear, Issued, settle_token, gate_token, enforced}
use sentinel_protocol.Gateway.Grants.{gate-HandsOut}

-- The token guard after a gate that handed out a token is the one after its issue.
gate-Issued :
    (w : World) (d : Draws) (gw : SentinelGateway) (req : GateRequest) (tok : ExecuteToken)
    → token_of (gate w d gw req).1.body ≡ some tok
    → Issued d gw req (gate w d gw req).0 tok
unfolding enforce_and_settle
gate-Issued w d gw req tok h =
    let (_, (_, same)) = gate_token w d gw req tok h in
    let e : Enforcement = enforced w d gw req in
    let (_, (_, (_, issued))) =
      settle_token w d (record gw { audit_log = e.log }) req e e.failure tok (cc) in
    rw same issued

-- A reply of the proxy that says the token was executed, and one that says it was rejected.
abbrev pub IsExecuted : Reply → Type 0
IsExecuted r =
    (resp : ExecuteResponse) × (r ≡ reply 200 (executed resp)) × (resp.status ≡ text "executed")

abbrev pub IsRejected : Text → Reply → Type 0
IsRejected why r =
    r ≡ reply 403 (executed (record { status = text "rejected"; message = why; openclaw = none }))

dispatched-IsExecuted : (answer : Fallible OpenClawResponse) → IsExecuted (dispatched answer)
dispatched-IsExecuted (err e) = (_, refl, refl)
dispatched-IsExecuted (ok response) = (_, refl, refl)

forward-IsExecuted :
    (ag : Agents) (oc : Option OpenClawClient) (prompt : Text) (tok : ExecuteToken)
    → IsExecuted (forward ag oc prompt tok)
unfolding forward
forward-IsExecuted ag none prompt tok = (_, refl, refl)
forward-IsExecuted ag (some oc) prompt tok =
    if_both IsExecuted oc.config.enabled _ _ (dispatched-IsExecuted _) (_, refl, refl)

issued_token_redeems :
    (eg : ExecuteGuard) (action : Text) (bytes : List ℕ) (now later : ℕ) (between : List Call)
    (state : ExecuteGuard) (tok : ExecuteToken)
    → state ≡ (issue eg action bytes now).0
    → tok ≡ new_token eg action bytes now
    → All (LeavesAlone (generate_token_id bytes)) between
    → later ≤ now + eg.ttl
    → (redeem (run state between) tok.id later).1 ≡ ok (record tok { redeemed = true })
unfolding new_token
issued_token_redeems eg action bytes now later between state tok same is alone alive =
    let early : ltb (now + eg.ttl) later ≡ false = ground arith in
    rw (same, is) (issued_redeems eg action bytes now later between alone ∙ rw early refl)

-- A token from the gate is executed up to its expiry by whoever names it, whatever the prompt and
-- whatever became of the kill switch since; it is executed once, and a second request is rejected.
pub gate_token_executes_once :
    (w : World) (d first second : Draws) (gw : SentinelGateway) (req : GateRequest)
    (tok : ExecuteToken) (ks : KillSwitch) (prompt prompt' : Text)
    → token_of (gate w d gw req).1.body ≡ some tok
    → first.issued_at ≤ tok.expires_at
    → let opened = record (gate w d gw req).0 { kill = ks } in
      let (after, r) =
        execute_request w first opened (record { token_id = tok.id; prompt = prompt }) in
      IsExecuted r
      × IsRejected
          (text "token already redeemed: " ++ tok.id)
          (execute_request w second after (record { token_id = tok.id; prompt = prompt' })).1
unfolding execute_request after_redeem run new_token
gate_token_executes_once w d first second gw req tok ks prompt prompt' h alive =
    let (same, is) = gate-Issued w d gw req tok h in
    let eg = (gate w d gw req).0.executor in
    let in_time : first.issued_at ≤ d.issued_at + gw.executor.ttl =
      subst (λ (t : ExecuteToken). first.issued_at ≤ t.expires_at) is alive in
    let redeemed =
      issued_token_redeems gw.executor req.action d.token_bytes d.issued_at first.issued_at [] eg
        tok same is tt in_time in
    let again = no_replay eg tok.id first.issued_at second.issued_at _ [] redeemed tt in
    (rw redeemed (forward-IsExecuted w.agents _ prompt _), rw again refl)

-- A gate that finds all clear replies with a token that is good: the switch is not armed before the
-- request or after it, the sandbox does not deny the capability, the record was written, and the
-- evaluation does not block. The token is for the action of the request, expires the time to live
-- after its issue, and up to then the gateway's own token guard redeems it, whatever other tokens are
-- issued and redeemed meanwhile.
pub IsClear-gate_token :
    (w : World) (d : Draws) (gw : SentinelGateway) (req : GateRequest) (between : List Call)
    (later : ℕ)
    → IsClear w d gw req
    → All (LeavesAlone (generate_token_id d.token_bytes)) between
    → later ≤ d.issued_at + gw.executor.ttl
    → (tok : ExecuteToken) × (token_of (gate w d gw req).1.body ≡ some tok)
      × (tok.action ≡ req.action)
      × (tok.expires_at ≡ d.issued_at + gw.executor.ttl)
      × ((redeem (run (gate w d gw req).0.executor between) tok.id later).1
          ≡ ok (record tok { redeemed = true }))
unfolding new_token
IsClear-gate_token w d gw req between later clear alone alive =
    let (tok, given) = gate-HandsOut w d gw req clear in
    let (same, is) = gate-Issued w d gw req tok given in
    (
      tok,
      given,
      ap (λ (t : ExecuteToken). t.action) is,
      ap (λ (t : ExecuteToken). t.expires_at) is,
      issued_token_redeems gw.executor req.action d.token_bytes d.issued_at later between
          (gate w d gw req).0.executor tok same is alone alive,
    )
