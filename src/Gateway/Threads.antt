-- ===== src/Gateway/Threads.antt =====
-- goserver/sentinel_gateway.go: requests in flight together. net/http serves each request in a
-- goroutine of its own, and the handlers share the components; each call of a component holds that
-- component's lock, so a handler is a sequence of atomic steps between which others run. Enforce
-- takes no lock: it reads the guard, which nobody changes, and its one append to the log file is the
-- step. A challenge that Confirm has decided is changed by no later call, so that the handler reads
-- the status that Confirm returned.
pub mod Alone
pub mod Effects
pub mod Begin
pub mod Apart
pub mod Parts
pub mod Tokens
pub mod Once
pub mod Ledger
pub mod Keeping
pub mod Every
pub mod Facts
pub mod Recorded
pub mod Race
pub mod Challenges
pub mod Orderly
pub mod Decided
pub mod Shared
pub mod Readings
pub mod Reports
use sentinel_protocol.Base.{
  ℕ, zero, suc, Bool, true, false, Option, none, some, List, [], ◌∷◌, if◌then◌else◌, length, ite,
  ◌≡◌, ℕ_discrete, Fallible, ok, err,
}
use sentinel_protocol.Text.{Text, text}
use sentinel_protocol.Guard.Config.{RiskEvaluation, AuditRecord, or_default}
use sentinel_protocol.Guard.Audit.{Enforcement, enforce}
use sentinel_protocol.KillSwitch.{KillSwitchStatus, is_armed, status, arm, disarm}
use sentinel_protocol.Executor.{ExecuteToken, redeem, pending_count}
use sentinel_protocol.Approval.{ApprovalChallenge, start_challenge, confirm, list_pending}
use sentinel_protocol.ProofChain.{
  ProofEntry, MerkleBatch, append, len, verify_chain, get_latest_proof, get_latest_batch,
}
use sentinel_protocol.Gateway.{
  SentinelGateway, World, Draws, GateRequest, ApprovalStartRequest, ApprovalConfirmRequest,
  ExecuteRequest, gated, failed, started, healthy, proven, reported, switched, Reply, reply,
  bad_body, method_not_allowed,
}
use sentinel_protocol.Gateway.Gate.{
  armed_refusal, capability_refusal, capability_denied, count_risk, auto_armed_response, respond,
}
use sentinel_protocol.Gateway.Serve.{
  Request, gates, starts_approval, confirms_approval, executes, asks_proof, asks_status,
  arms_kill_switch, disarms_kill_switch, asks_health, after_confirm, after_redeem, handle_health,
  tick,
}

-- Where a handler stands, with the local variables that are live there.
pub data Pc : Type 0 where
  idle : Pc
  gate_entry : Draws → GateRequest → Pc  -- before the first IsArmed
  gate_armed : Draws → Pc  -- before Status, for the refusal
  gate_cleared : Draws → GateRequest → Pc  -- before the sandbox
  gate_capable : Draws → GateRequest → Pc  -- before Enforce
  gate_recorded : Draws → GateRequest → RiskEvaluation → AuditRecord → Pc  -- before Append
  gate_chained : Draws → GateRequest → RiskEvaluation → AuditRecord → ProofEntry → Pc
  gate_counted : Draws → GateRequest → RiskEvaluation → AuditRecord → ProofEntry → Pc
  gate_passed : Draws → GateRequest → RiskEvaluation → AuditRecord → ProofEntry → Pc
  start_entry : Draws → ApprovalStartRequest → Pc
  confirm_entry : Draws → ApprovalConfirmRequest → Pc
  confirm_decided : Draws → Fallible ApprovalChallenge → Pc  -- before Issue
  execute_entry : Draws → ExecuteRequest → Pc
  proof_entry : Draws → Pc
  proof_counted : Draws → ℕ → Pc
  proof_verified : Draws → ℕ → Bool → Pc
  proof_found : Draws → ℕ → Bool → Option ProofEntry → Pc
  status_entry : Draws → Pc
  status_switch : Draws → KillSwitchStatus → Pc
  status_pending : Draws → KillSwitchStatus → ℕ → Pc
  status_counted : Draws → KillSwitchStatus → ℕ → ℕ → Pc
  status_verified : Draws → KillSwitchStatus → ℕ → ℕ → Bool → Pc
  arm_entry : Draws → Text → Pc
  disarm_entry : Draws → Pc
  switch_set : Draws → Pc  -- before Status, for the reply
  executed_as : Draws → Text → Reply → Pc  -- a token was redeemed, with its identifier
  done : Draws → Reply → Pc

-- The routes, and what a handler does before it first calls a component.
unfoldable pub entry : Draws → Request → Pc
entry d (gates false body) = done d method_not_allowed
entry d (gates true none) = done d bad_body
entry d (gates true (some req)) = gate_entry d req
entry d (starts_approval false body) = done d method_not_allowed
entry d (starts_approval true none) = done d bad_body
entry d (starts_approval true (some req)) = start_entry d req
entry d (confirms_approval false body) = done d method_not_allowed
entry d (confirms_approval true none) = done d bad_body
entry d (confirms_approval true (some req)) = confirm_entry d req
entry d (executes false body) = done d method_not_allowed
entry d (executes true none) = done d bad_body
entry d (executes true (some req)) = execute_entry d req
entry d (asks_proof false) = done d method_not_allowed
entry d (asks_proof true) = proof_entry d
entry d (asks_status false) = done d method_not_allowed
entry d (asks_status true) = status_entry d
entry d (arms_kill_switch false reason) = done d method_not_allowed
entry d (arms_kill_switch true reason) = arm_entry d reason
entry d (disarms_kill_switch false) = done d method_not_allowed
entry d (disarms_kill_switch true) = disarm_entry d
entry d asks_health = done d (reply 200 healthy)

abbrev pub after_enforce : Draws → GateRequest → Enforcement → Option Text → Pc
after_enforce d req e (some why) = done d (reply 500 (failed why))
after_enforce d req e none = gate_recorded d req e.eval e.audit

-- The reply of the proxy; a token that was redeemed is kept beside it.
abbrev pub executed_pc :
    World → Draws → SentinelGateway → ExecuteRequest → Fallible ExecuteToken → Pc
executed_pc w d gw req (err e) = done d (after_redeem w gw req (err e))
executed_pc w d gw req (ok tok) = executed_as d req.token_id (after_redeem w gw req (ok tok))

-- One step of one handler.
unfoldable pub advance : World → SentinelGateway → Pc → SentinelGateway × Pc
advance w gw idle = (gw, idle)
advance w gw (gate_entry d req) =
    (gw, if is_armed gw.kill then gate_armed d else gate_cleared d req)
advance w gw (gate_armed d) = (gw, done d (reply 403 (gated (armed_refusal gw.kill))))
advance w gw (gate_cleared d req) = (
  gw,
  if capability_denied gw req
      then done d (reply 403 (gated (capability_refusal req)))
      else gate_capable d req,
)
advance w gw (gate_capable d req) =
    let e = enforce w.outside gw.guard d.evaluated_at req.action req.prompt gw.audit_log in
    (record gw { audit_log = e.log }, after_enforce d req e e.failure)
advance w gw (gate_recorded d req eval rec) =
    let (proof, entry) = append w.services gw.proof rec d.batched_at in
    (record gw { proof = proof }, gate_chained d req eval rec entry)
advance w gw (gate_chained d req eval rec entry) = (
  record gw { kill = count_risk gw.kill gw.guard.cfg.risk_threshold eval.score d.counted_at },
  gate_counted d req eval rec entry,
)
advance w gw (gate_counted d req eval rec entry) = (
  gw,
  if is_armed gw.kill
      then done d (reply 200 (gated (auto_armed_response eval rec entry)))
      else gate_passed d req eval rec entry,
)
advance w gw (gate_passed d req eval rec entry) =
    let (after, resp) = respond d gw req eval rec entry in (after, done d (reply 200 (gated resp)))
advance w gw (start_entry d req) =
    let (approval, ch) =
      start_challenge gw.approval req.action req.prompt req.score d.challenge_id d.started_at in
    (record gw { approval = approval }, done d (reply 200 (started ch)))
advance w gw (confirm_entry d req) =
    let (approval, result) =
      confirm gw.approval req.challenge_id req.approves req.decided_by d.started_at d.decided_at in
    (record gw { approval = approval }, confirm_decided d result)
advance w gw (confirm_decided d result) =
    let (after, r) = after_confirm d gw result in (after, done d r)
advance w gw (execute_entry d req) =
    let (executor, result) = redeem gw.executor req.token_id d.issued_at in
    (record gw { executor = executor }, executed_pc w d gw req result)
advance w gw (proof_entry d) = (gw, proof_counted d (len gw.proof))
advance w gw (proof_counted d n) = (gw, proof_verified d n (verify_chain w.services gw.proof))
advance w gw (proof_verified d n b) = (gw, proof_found d n b (get_latest_proof gw.proof))
advance w gw (proof_found d n b p) = (
  gw,
  done d (
      reply 200 (
        proven (record {
          chain_length = n;
          chain_valid = b;
          latest_proof = p;
          latest_batch = get_latest_batch gw.proof;
        }))),
)
advance w gw (status_entry d) = (gw, status_switch d (status gw.kill))
advance w gw (status_switch d ks) = (gw, status_pending d ks (length (list_pending gw.approval)))
advance w gw (status_pending d ks n) = (gw, status_counted d ks n (len gw.proof))
advance w gw (status_counted d ks n m) =
    (gw, status_verified d ks n m (verify_chain w.services gw.proof))
advance w gw (status_verified d ks n m b) = (
  gw,
  done d (
      reply 200 (
        reported (record {
          kill_switch = ks;
          pending_approvals = n;
          proof_chain_length = m;
          proof_chain_valid = b;
          pending_tokens = pending_count gw.executor d.started_at;
        }))),
)
advance w gw (arm_entry d reason) = (
  record gw { kill = arm gw.kill (or_default reason (text "manual arm via API")) d.counted_at },
  switch_set d,
)
advance w gw (disarm_entry d) = (record gw { kill = disarm gw.kill }, switch_set d)
advance w gw (switch_set d) = (gw, done d (reply 200 (switched (status gw.kill))))
advance w gw (executed_as d id r) = (gw, executed_as d id r)
advance w gw (done d r) = (gw, done d r)

-- The reply of a handler that has finished.
abbrev pub reply_of : Pc → Option Reply
reply_of (done d r) = some r
reply_of (executed_as d id r) = some r
reply_of _ = none

-- The gateway with its handlers; a handler that has not begun is idle.
pub record System : Type 0 where
  pub gw : SentinelGateway
  pub threads : ℕ → Pc

abbrev pub update : (ℕ → Pc) → ℕ → Pc → ℕ → Pc
update f i p j = ite (ℕ_discrete i j) p (f j)

-- One step of the system: a request arrives, a handler moves, or the watcher ticks.
pub data Step (w : World) (s : System) : System → Type 0 where
  arrives :
      (i : ℕ) (d : Draws) (r : Request)
      → s.threads i ≡ idle
      → Step w s (record { gw = s.gw; threads = update s.threads i (entry d r) })
  moves :
      (i : ℕ)
      → Step w s (record {
        gw = (advance w s.gw (s.threads i)).0;
        threads = update s.threads i (advance w s.gw (s.threads i)).1;
      })
  watches : (now : ℕ) → Step w s (record { gw = tick s.gw now; threads = s.threads })

pub data Reach (w : World) (gw : SentinelGateway) : System → Type 0 where
  boot : Reach w gw (record { gw = gw; threads = λ i. idle })
  later : {s t : System} → Reach w gw s → Step w s t → Reach w gw t
