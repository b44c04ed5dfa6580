-- ===== src/Gateway/Serve.antt =====
-- goserver/sentinel_gateway.go: the other handlers, and the requests as steps of the gateway.
use sentinel_protocol.Base.{
  ℕ, Bool, true, false, Option, none, some, List, [], ◌∷◌, ◌++◌, if◌then◌else◌, length, Fallible,
  ok, err,
}
use sentinel_protocol.Text.{Text, text}
use sentinel_protocol.Guard.Config.{or_default}
use sentinel_protocol.KillSwitch.{KillSwitch, arm, disarm, status}
use sentinel_protocol.Executor.{ExecuteToken, issue, redeem, pending_count}
use sentinel_protocol.Approval.{
  ApprovalChallenge, approved, start_challenge, confirm, list_pending, clean_expired, Status,
}
use sentinel_protocol.ProofChain.{len, verify_chain, get_latest_proof, get_latest_batch}
use sentinel_protocol.OpenClaw.{
  OpenClawClient, OpenClawResponse, Agents, send_task_without_sentinel,
}
use sentinel_protocol.Gateway.{
  SentinelGateway, World, Draws, GateRequest, ApprovalStartRequest, ApprovalConfirmRequest,
  ExecuteRequest, failed, started, confirmed, executed, proven, reported, switched, healthy, Reply,
  reply, bad_body, method_not_allowed,
}
use sentinel_protocol.Gateway.Gate.{handle_gate}

unfoldable pub handle_approval_start :
    Draws → SentinelGateway → Bool → Option ApprovalStartRequest → SentinelGateway × Reply
handle_approval_start d gw false body = (gw, method_not_allowed)
handle_approval_start d gw true none = (gw, bad_body)
handle_approval_start d gw true (some req) =
    let (approval, ch) =
      start_challenge gw.approval req.action req.prompt req.score d.challenge_id d.started_at in
    (record gw { approval = approval }, reply 200 (started ch))

abbrev pub is_approved : Status → Bool
is_approved approved = true
is_approved _ = false

-- The answer to a decision that was recorded: an approved challenge takes a token.
unfoldable pub after_confirm :
    Draws → SentinelGateway → Fallible ApprovalChallenge → SentinelGateway × Reply
after_confirm d gw (err e) = (gw, reply 400 (failed e))
after_confirm d gw (ok ch) =
    let (executor, tok) = issue gw.executor ch.action d.token_bytes d.issued_at in
    if is_approved ch.status
    then (record gw { executor = executor }, reply 200 (confirmed ch (some tok)))
    else (gw, reply 200 (confirmed ch none))

unfoldable pub confirm_request :
    Draws → SentinelGateway → ApprovalConfirmRequest → SentinelGateway × Reply
confirm_request d gw req =
    let (approval, result) =
      confirm gw.approval req.challenge_id req.approves req.decided_by d.started_at d.decided_at in
    after_confirm d (record gw { approval = approval }) result

unfoldable pub handle_approval_confirm :
    Draws → SentinelGateway → Bool → Option ApprovalConfirmRequest → SentinelGateway × Reply
handle_approval_confirm d gw false body = (gw, method_not_allowed)
handle_approval_confirm d gw true none = (gw, bad_body)
handle_approval_confirm d gw true (some req) = confirm_request d gw req

abbrev pub execution : Text → Option OpenClawResponse → Reply
execution message response =
    reply 200
      (executed (record { status = text "executed"; message = message; openclaw = response }))

abbrev pub dispatched : Fallible OpenClawResponse → Reply
dispatched (err e) = execution (text "token redeemed but OpenClaw dispatch failed: " ++ e) none
dispatched (ok response) =
    execution (text "token redeemed and forwarded to OpenClaw") (some response)

-- The prompt of the request, or the action of the token, goes to OpenClaw if it is configured.
unfoldable pub forward : Agents → Option OpenClawClient → Text → ExecuteToken → Reply
forward ag none prompt tok = execution (text "token redeemed successfully") none
forward ag (some oc) prompt tok =
    if oc.config.enabled
    then dispatched (send_task_without_sentinel ag oc (or_default prompt tok.action))
    else execution (text "token redeemed successfully") none

unfoldable pub after_redeem :
    World → SentinelGateway → ExecuteRequest → Fallible ExecuteToken → Reply
after_redeem w gw req (err e) =
    reply 403 (executed (record { status = text "rejected"; message = e; openclaw = none }))
after_redeem w gw req (ok tok) = forward w.agents gw.openclaw req.prompt tok

unfoldable pub execute_request :
    World → Draws → SentinelGateway → ExecuteRequest → SentinelGateway × Reply
execute_request w d gw req =
    let (executor, result) = redeem gw.executor req.token_id d.issued_at in
    (record gw { executor = executor }, after_redeem w gw req result)

unfoldable pub handle_execute :
    World → Draws → SentinelGateway → Bool → Option ExecuteRequest → SentinelGateway × Reply
handle_execute w d gw false body = (gw, method_not_allowed)
handle_execute w d gw true none = (gw, bad_body)
handle_execute w d gw true (some req) = execute_request w d gw req

unfoldable pub handle_latest_proof : World → SentinelGateway → Bool → Reply
handle_latest_proof w gw false = method_not_allowed
handle_latest_proof w gw true = reply 200 (
    proven (record {
      chain_length = len gw.proof;
      chain_valid = verify_chain w.services gw.proof;
      latest_proof = get_latest_proof gw.proof;
      latest_batch = get_latest_batch gw.proof;
    }))

unfoldable pub handle_status : World → SentinelGateway → Bool → ℕ → Reply
handle_status w gw false now = method_not_allowed
handle_status w gw true now = reply 200 (
    reported (record {
      kill_switch = status gw.kill;
      pending_approvals = length (list_pending gw.approval);
      proof_chain_length = len gw.proof;
      proof_chain_valid = verify_chain w.services gw.proof;
      pending_tokens = pending_count gw.executor now;
    }))

abbrev switch_to : SentinelGateway → KillSwitch → SentinelGateway × Reply
switch_to gw ks = (record gw { kill = ks }, reply 200 (switched (status ks)))

-- The reason is what the decoder left of the body: a body that does not decode is not refused.
unfoldable pub handle_kill_switch_arm : SentinelGateway → Bool → Text → ℕ → SentinelGateway × Reply
handle_kill_switch_arm gw false reason now = (gw, method_not_allowed)
handle_kill_switch_arm gw true reason now =
    switch_to gw (arm gw.kill (or_default reason (text "manual arm via API")) now)

unfoldable pub handle_kill_switch_disarm : SentinelGateway → Bool → SentinelGateway × Reply
handle_kill_switch_disarm gw false = (gw, method_not_allowed)
handle_kill_switch_disarm gw true = switch_to gw (disarm gw.kill)

unfoldable pub handle_health : SentinelGateway → Reply
handle_health gw = reply 200 healthy

-- A request: whether its method is the one of its route, and what the decoder found in its body.
pub data Request : Type 0 where
  gates : Bool → Option GateRequest → Request
  starts_approval : Bool → Option ApprovalStartRequest → Request
  confirms_approval : Bool → Option ApprovalConfirmRequest → Request
  executes : Bool → Option ExecuteRequest → Request
  asks_proof : Bool → Request
  asks_status : Bool → Request
  arms_kill_switch : Bool → Text → Request
  disarms_kill_switch : Bool → Request
  asks_health : Request

-- RegisterRoutes: the handler of each route.
unfoldable pub serve : World → Draws → SentinelGateway → Request → SentinelGateway × Reply
serve w d gw (gates posted body) = handle_gate w d gw posted body
serve w d gw (starts_approval posted body) = handle_approval_start d gw posted body
serve w d gw (confirms_approval posted body) = handle_approval_confirm d gw posted body
serve w d gw (executes posted body) = handle_execute w d gw posted body
serve w d gw (asks_proof got) = (gw, handle_latest_proof w gw got)
serve w d gw (asks_status got) = (gw, handle_status w gw got d.started_at)
serve w d gw (arms_kill_switch posted reason) = handle_kill_switch_arm gw posted reason d.counted_at
serve w d gw (disarms_kill_switch posted) = handle_kill_switch_disarm gw posted
serve w d gw asks_health = (gw, handle_health gw)

-- One tick of the watcher.
unfoldable pub tick : SentinelGateway → ℕ → SentinelGateway
tick gw now = record gw { approval = (clean_expired gw.approval now).0 }

-- What happens to a gateway: a request with what it draws, or a tick of the watcher.
pub data Happening : Type 0 where
  requests : Draws → Request → Happening
  ticks : ℕ → Happening

unfoldable pub happen : World → SentinelGateway → Happening → SentinelGateway
happen w gw (requests d r) = (serve w d gw r).0
happen w gw (ticks now) = tick gw now

unfoldable pub live : World → SentinelGateway → List Happening → SentinelGateway
live w gw [] = gw
live w gw (h ∷ hs) = live w (happen w gw h) hs
