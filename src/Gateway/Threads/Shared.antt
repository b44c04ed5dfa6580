-- ===== src/Gateway/Threads/Shared.antt =====
-- However the handlers interleave, each component goes through a run of its own operations.
use sentinel_protocol.Base.{Option}
use sentinel_protocol.Text.{text}
use sentinel_protocol.Guard.Config.{SentinelGuard, or_default}
use sentinel_protocol.Executor
use sentinel_protocol.Approval
use sentinel_protocol.KillSwitch
use sentinel_protocol.OpenClaw.{OpenClawClient}
use sentinel_protocol.ProofChain.Chain.{IsChained}
use sentinel_protocol.ProofChain.Batches.{IsBatched}
use sentinel_protocol.Gateway.{SentinelGateway, SentinelGatewayConfig, new_sentinel_gateway, World}
use sentinel_protocol.Gateway.Serve.{tick}
use sentinel_protocol.Gateway.Runs.{
  Runs, Runs-refl, Runs-trans, executor_call, approval_call, kill_event, append_call, logged,
}
use sentinel_protocol.Gateway.Runs.Requests.{respond-Runs, count_risk-Runs, after_confirm-Runs}
use sentinel_protocol.Gateway.Runs.Chains.{Runs-IsChained}
use sentinel_protocol.Gateway.Threads.{
  Pc, idle, gate_entry, gate_armed, gate_cleared, gate_capable, gate_recorded, gate_chained,
  gate_counted, gate_passed, start_entry, confirm_entry, confirm_decided, execute_entry,
  proof_entry, proof_counted, proof_verified, proof_found, status_entry, status_switch,
  status_pending, status_counted, status_verified, arm_entry, disarm_entry, switch_set, executed_as,
  done, advance, System, Step, arrives, moves, watches, Reach, boot, later,
}

-- One step of a handler is at most one call of each component.
pub advance-Runs : (w : World) (gw : SentinelGateway) (pc : Pc) → Runs w gw (advance w gw pc).0
unfolding advance Executor.step Approval.step KillSwitch.step
advance-Runs w gw idle = Runs-refl w gw
advance-Runs w gw (gate_entry d req) = Runs-refl w gw
advance-Runs w gw (gate_armed d) = Runs-refl w gw
advance-Runs w gw (gate_cleared d req) = Runs-refl w gw
advance-Runs w gw (gate_capable d req) = logged w gw _ _ (Runs-refl w _)
advance-Runs w gw (gate_recorded d req eval rec) = append_call w gw rec d.batched_at
advance-Runs w gw (gate_chained d req eval rec entry) =
    count_risk-Runs w gw gw.guard.cfg.risk_threshold eval.score d.counted_at
advance-Runs w gw (gate_counted d req eval rec entry) = Runs-refl w gw
advance-Runs w gw (gate_passed d req eval rec entry) = respond-Runs w d gw req eval rec entry
advance-Runs w gw (start_entry d req) =
    approval_call w gw (Approval.starts req.action req.prompt req.score d.challenge_id d.started_at)
advance-Runs w gw (confirm_entry d req) =
    approval_call w gw
      (Approval.confirms req.challenge_id req.approves req.decided_by d.started_at d.decided_at)
advance-Runs w gw (confirm_decided d result) = after_confirm-Runs w d gw result
advance-Runs w gw (execute_entry d req) =
    executor_call w gw (Executor.redeems req.token_id d.issued_at)
advance-Runs w gw (proof_entry d) = Runs-refl w gw
advance-Runs w gw (proof_counted d n) = Runs-refl w gw
advance-Runs w gw (proof_verified d n b) = Runs-refl w gw
advance-Runs w gw (proof_found d n b p) = Runs-refl w gw
advance-Runs w gw (status_entry d) = Runs-refl w gw
advance-Runs w gw (status_switch d ks) = Runs-refl w gw
advance-Runs w gw (status_pending d ks n) = Runs-refl w gw
advance-Runs w gw (status_counted d ks n m) = Runs-refl w gw
advance-Runs w gw (status_verified d ks n m b) = Runs-refl w gw
advance-Runs w gw (arm_entry d reason) =
    kill_event w gw (KillSwitch.arms (or_default reason (text "manual arm via API")) d.counted_at)
advance-Runs w gw (disarm_entry d) = kill_event w gw KillSwitch.disarms
advance-Runs w gw (switch_set d) = Runs-refl w gw
advance-Runs w gw (executed_as d id r) = Runs-refl w gw
advance-Runs w gw (done d r) = Runs-refl w gw

pub Step-Runs : {w : World} {s t : System} → Step w s t → Runs w s.gw t.gw
unfolding tick Approval.step
Step-Runs {w} {s} (arrives i d r free) = Runs-refl w s.gw
Step-Runs {w} {s} (moves i) = advance-Runs w s.gw (s.threads i)
Step-Runs {w} {s} (watches now) = approval_call w s.gw (Approval.cleans now)

-- Whatever handlers are in flight and however they interleave, the token guard, the approvals, the
-- kill switch and the proof chain each go through a run of their own operations.
pub Reach-Runs : {w : World} {gw : SentinelGateway} {s : System} → Reach w gw s → Runs w gw s.gw
Reach-Runs {w} {gw} boot = Runs-refl w gw
Reach-Runs {w} {gw} {s} (later r st) = Runs-trans w gw _ s.gw (Reach-Runs r) (Step-Runs st)

-- In every interleaving from a new gateway the proof chain verifies, its entries are numbered from
-- 0, and its batches partition them in order but for fewer than a batch of them.
pub interleaved_chain_is_valid :
    (w : World) (guard : SentinelGuard) (oc : Option OpenClawClient) (cfg : SentinelGatewayConfig)
    (s : System)
    → Reach w (new_sentinel_gateway guard oc cfg) s
    → IsChained w.services s.gw.proof × IsBatched w.services s.gw.proof
interleaved_chain_is_valid w guard oc cfg s r = Runs-IsChained w guard oc cfg s.gw (Reach-Runs r)
