-- ===== src/Gateway/Granted.antt =====
-- Nothing is executed that was not granted: a token that redeems was handed out by a gate that
-- allowed its request or by the approval of a challenge.
use sentinel_protocol.Base.{
  ℕ, ◌≡◌, refl, ◌⊎◌, inl, inr, true, false, Option, none, some, List, [], ◌∷◌, ◌++◌, if_both, arith,
  Fallible, ok, err, ℤ, get,
}
use sentinel_protocol.Text.{Text, Text-discrete}
use sentinel_protocol.Guard.Config.{SentinelGuard, RiskEvaluation, AuditRecord}
use sentinel_protocol.Guard.Audit.{Enforcement, enforce}
use sentinel_protocol.KillSwitch.{is_armed}
use sentinel_protocol.Executor.{
  ExecuteToken, ExecuteGuard, new_execute_guard, generate_token_id, issue, redeem, new_token,
}
use sentinel_protocol.Executor.OneTime.{token_at, token_at-issue, redeem_found_ok}
use sentinel_protocol.Executor.Lifecycle.{redeem_found-keeps}
use sentinel_protocol.Approval.{ApprovalChallenge}
use sentinel_protocol.ProofChain.{ProofEntry}
use sentinel_protocol.OpenClaw.{OpenClawClient}
use sentinel_protocol.Gateway.{
  SentinelGateway, SentinelGatewayConfig, new_sentinel_gateway, World, Draws, GateRequest,
  GateResponse, Body, gated, confirmed, Reply,
}
use sentinel_protocol.Gateway.Gate.{
  handle_gate, gate, enforce_and_settle, settle, conclude, respond, capability_denied,
  is_hard_block,
}
use sentinel_protocol.Gateway.Serve.{
  handle_approval_start, handle_approval_confirm, confirm_request, after_confirm, handle_execute,
  execute_request, handle_kill_switch_arm, handle_kill_switch_disarm, serve, tick, Request, gates,
  starts_approval, confirms_approval, executes, asks_proof, asks_status, arms_kill_switch,
  disarms_kill_switch, asks_health, Happening, requests, ticks, happen, live,
}

abbrev pub token_of : Body → Option ExecuteToken
token_of (gated resp) = resp.token
token_of (confirmed ch tok) = tok
token_of _ = none

-- The reply hands out a token with the identifier.
abbrev pub Grants : Option ExecuteToken → Text → Type 0
Grants given id = (tok : ExecuteToken) × (given ≡ some tok) × (tok.id ≡ id)

abbrev pub IsHeld : ExecuteGuard → Text → Type 0
IsHeld eg id = (tok : ExecuteToken) × (token_at eg id ≡ some tok)

-- A token of the new guard was held before, or is the one handed out.
abbrev pub Accounted : ExecuteGuard → Text → ExecuteGuard → Option ExecuteToken → Type 0
Accounted eg id eg' given = IsHeld eg' id → IsHeld eg id ⊎ Grants given id

kept : (eg : ExecuteGuard) (id : Text) (given : Option ExecuteToken) → Accounted eg id eg given
kept eg id given held = inl held

pub issue-Accounted :
    (eg : ExecuteGuard) (id action : Text) (bytes : List ℕ) (now : ℕ)
    → let (eg', tok) = issue eg action bytes now in Accounted eg id eg' (some tok)
unfolding issue new_token
issue-Accounted eg id action bytes now (tok, at) =
    elim (Text-discrete (generate_token_id bytes) id) [
      | yes same ↦ inr (new_token eg action bytes now, refl, same)
      | no apart ↦ inl (tok, ground (arith, token_at-issue eg action bytes now id))
    ]

respond-Accounted :
    (d : Draws) (gw : SentinelGateway) (id : Text) (req : GateRequest) (eval : RiskEvaluation)
    (rec : AuditRecord) (entry : ProofEntry)
    → let (after, resp) = respond d gw req eval rec entry in
      Accounted gw.executor id after.executor resp.token
unfolding respond
respond-Accounted d gw id req eval rec entry =
    if_both
      (λ (r : SentinelGateway × GateResponse). Accounted gw.executor id r.0.executor r.1.token)
      eval.should_block _ _
      (if_both
        (λ (r : SentinelGateway × GateResponse). Accounted gw.executor id r.0.executor r.1.token)
        (is_hard_block eval) _ _ (kept gw.executor id none) (kept gw.executor id none))
      (issue-Accounted gw.executor id req.action d.token_bytes d.issued_at)

-- The same of a gateway and its reply.
abbrev Answers : SentinelGateway → Text → SentinelGateway × Reply → Type 0
Answers gw id (after, r) = Accounted gw.executor id after.executor (token_of r.body)

conclude-Answers :
    (w : World) (d : Draws) (gw : SentinelGateway) (id : Text) (req : GateRequest)
    (eval : RiskEvaluation) (rec : AuditRecord)
    → Answers gw id (conclude w d gw req eval rec)
unfolding conclude
conclude-Answers w d gw id req eval rec =
    if_both (Answers gw id) _ _ _ (kept gw.executor id _) (respond-Accounted d _ id req eval rec _)

settle-Answers :
    (w : World) (d : Draws) (gw : SentinelGateway) (id : Text) (req : GateRequest)
    (enforced : Enforcement) (failure : Option Text)
    → Answers gw id (settle w d gw req enforced failure)
settle-Answers w d gw id req enforced (some e) = kept gw.executor id none
settle-Answers w d gw id req enforced none =
    conclude-Answers w d gw id req enforced.eval enforced.audit

gate-Answers :
    (w : World) (d : Draws) (gw : SentinelGateway) (id : Text) (req : GateRequest)
    → Answers gw id (gate w d gw req)
unfolding gate enforce_and_settle
gate-Answers w d gw id req =
    let enforced : Enforcement =
      enforce w.outside gw.guard d.evaluated_at req.action req.prompt gw.audit_log in
    if_both (Answers gw id) (is_armed gw.kill) _ _ (kept gw.executor id _) (
      if_both (Answers gw id) (capability_denied gw req) _ _ (kept gw.executor id _) (
        settle-Answers w d (record gw { audit_log = enforced.log }) id req enforced
          enforced.failure))

after_confirm-Answers :
    (d : Draws) (gw : SentinelGateway) (id : Text) (result : Fallible ApprovalChallenge)
    → Answers gw id (after_confirm d gw result)
unfolding after_confirm
after_confirm-Answers d gw id (err e) = kept gw.executor id none
after_confirm-Answers d gw id (ok ch) =
    if_both (Answers gw id) _ _ _
      (issue-Accounted gw.executor id ch.action d.token_bytes d.issued_at)
      (kept gw.executor id none)

pub redeem-Accounted :
    (eg : ExecuteGuard) (id other : Text) (now : ℕ) (given : Option ExecuteToken)
    → Accounted eg id (redeem eg other now).0 given
unfolding redeem
redeem-Accounted eg id other now given (tok, at) =
    let (old, was, _, _) = redeem_found-keeps eg other now (token_at eg other) id tok refl at in
    inl (old, was)

-- A request leaves no token behind that was not there and is not the one in its reply.
serve-Answers :
    (w : World) (d : Draws) (gw : SentinelGateway) (id : Text) (r : Request)
    → Answers gw id (serve w d gw r)
unfolding serve handle_gate handle_approval_start handle_approval_confirm confirm_request
    handle_execute execute_request handle_kill_switch_arm handle_kill_switch_disarm
serve-Answers w d gw id (gates false body) = kept gw.executor id none
serve-Answers w d gw id (gates true none) = kept gw.executor id none
serve-Answers w d gw id (gates true (some req)) = gate-Answers w d gw id req
serve-Answers w d gw id (starts_approval false body) = kept gw.executor id none
serve-Answers w d gw id (starts_approval true none) = kept gw.executor id none
serve-Answers w d gw id (starts_approval true (some req)) = kept gw.executor id none
serve-Answers w d gw id (confirms_approval false body) = kept gw.executor id none
serve-Answers w d gw id (confirms_approval true none) = kept gw.executor id none
serve-Answers w d gw id (confirms_approval true (some req)) = after_confirm-Answers d _ id _
serve-Answers w d gw id (executes false body) = kept gw.executor id none
serve-Answers w d gw id (executes true none) = kept gw.executor id none
serve-Answers w d gw id (executes true (some req)) =
    redeem-Accounted gw.executor id req.token_id d.issued_at _
serve-Answers w d gw id (asks_proof got) = kept gw.executor id _
serve-Answers w d gw id (asks_status got) = kept gw.executor id _
serve-Answers w d gw id (arms_kill_switch false reason) = kept gw.executor id none
serve-Answers w d gw id (arms_kill_switch true reason) = kept gw.executor id none
serve-Answers w d gw id (disarms_kill_switch false) = kept gw.executor id none
serve-Answers w d gw id (disarms_kill_switch true) = kept gw.executor id none
serve-Answers w d gw id asks_health = kept gw.executor id _

-- Some request of the history was answered with a token of the identifier.
abbrev pub WasGranted : World → SentinelGateway → List Happening → Text → Type 0
WasGranted w gw hs id =
    (before : List Happening) × (d : Draws) × (r : Request) × (after : List Happening) × (hs
      ≡ before ++ requests d r ∷ after)
    × Grants (token_of (serve w d (live w gw before) r).1.body) id

later :
    (w : World) (gw : SentinelGateway) (h : Happening) (hs : List Happening) (id : Text)
    → WasGranted w (happen w gw h) hs id
    → WasGranted w gw (h ∷ hs) id
unfolding live
later w gw h hs id (before, d, r, after, split, given) = (h ∷ before, d, r, after, cc, given)

first_step :
    (w : World) (gw : SentinelGateway) (h : Happening) (hs : List Happening) (id : Text)
    → IsHeld (happen w gw h).executor id
    → IsHeld gw.executor id ⊎ WasGranted w gw (h ∷ hs) id
unfolding live happen tick
first_step w gw (ticks now) hs id held = inl held
first_step w gw (requests d r) hs id held = elim (serve-Answers w d gw id r held) [
  | inl before ↦ inl before
  | inr given ↦ inr ([], d, r, hs, refl, given)
]

IsHeld-was_granted :
    (w : World) (gw : SentinelGateway) (hs : List Happening) (id : Text)
    → IsHeld (live w gw hs).executor id
    → IsHeld gw.executor id ⊎ WasGranted w gw hs id
unfolding live happen tick
IsHeld-was_granted w gw [] id held = inl held
IsHeld-was_granted w gw (h ∷ hs) id held = elim (IsHeld-was_granted w (happen w gw h) hs id held) [
  | inr granted ↦ inr (later w gw h hs id granted)
  | inl earlier ↦ first_step w gw h hs id earlier
]

pub nothing_held : (ttl : ℤ) (id : Text) → IsHeld (new_execute_guard ttl) id → ⊥
unfolding new_execute_guard get
nothing_held ttl id (tok, found) = ground arith

-- In every history of a new gateway: if a token redeems, then an earlier request was answered with
-- a token of its identifier, by the gate or by the approval of a challenge.
pub redeemed_was_granted :
    (w : World) (guard : SentinelGuard) (oc : Option OpenClawClient) (cfg : SentinelGatewayConfig)
    (hs : List Happening) (id : Text) (now : ℕ) (tok : ExecuteToken)
    → let gw = new_sentinel_gateway guard oc cfg in
      (redeem (live w gw hs).executor id now).1 ≡ ok tok → WasGranted w gw hs id
unfolding redeem new_sentinel_gateway
redeemed_was_granted w guard oc cfg hs id now tok h =
    let gw = new_sentinel_gateway guard oc cfg in
    let eg = (live w gw hs).executor in
    let (old, at, _, _, _, _) = redeem_found_ok eg id now (token_at eg id) tok h in
    elim (IsHeld-was_granted w gw hs id (old, at)) [
      | inl found ↦ absurd (nothing_held cfg.execute_token_ttl id found)
      | inr granted ↦ granted
    ]
