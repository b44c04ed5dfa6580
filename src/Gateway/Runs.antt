-- ===== src/Gateway/Runs.antt =====
-- Every component of a gateway goes through runs of its own operations, whatever the requests: what
-- holds for all the runs of a component holds for the component of a live gateway.
pub mod Requests
pub mod Chains
use sentinel_protocol.Base.{
  ℕ, ◌≡◌, refl, sym, ◌∙◌, Bool, true, false, Option, none, some, List, [], ◌∷◌, ◌++◌, if_both,
  leb_ℤ, Fallible, ok, err, ap, ℤ,
}
use sentinel_protocol.Text.{Text, text}
use sentinel_protocol.Guard.Config.{RiskEvaluation, AuditRecord, or_default}
use sentinel_protocol.Guard.Audit.{Enforcement, enforce}
use sentinel_protocol.Executor
use sentinel_protocol.KillSwitch.{is_armed}
use sentinel_protocol.Approval
use sentinel_protocol.KillSwitch
use sentinel_protocol.ProofChain.{Services, ProofChain, ProofEntry, append, append_all}
use sentinel_protocol.Gateway.{
  SentinelGateway, World, Draws, GateRequest, ApprovalConfirmRequest, Reply, GateResponse,
}
use sentinel_protocol.Gateway.Gate.{
  handle_gate, gate, enforce_and_settle, conclude, respond, count_risk, capability_denied,
  is_hard_block, settle,
}
use sentinel_protocol.Gateway.Serve.{
  handle_approval_start, handle_approval_confirm, confirm_request, after_confirm, handle_execute,
  execute_request, handle_kill_switch_arm, handle_kill_switch_disarm, serve, tick, Request, gates,
  starts_approval, confirms_approval, executes, asks_proof, asks_status, arms_kill_switch,
  disarms_kill_switch, asks_health, Happening, requests, ticks, happen, live,
}

-- The second gateway comes from the first by calls of the components.
pub record Runs (w : World) (gw gw' : SentinelGateway) : Type 0 where
  pub executor_calls : List Executor.Call
  pub executor_run : gw'.executor ≡ Executor.run gw.executor executor_calls
  pub approval_calls : List Approval.Call
  pub approval_run : gw'.approval ≡ Approval.run gw.approval approval_calls
  pub kill_events : List KillSwitch.Event
  pub kill_run : gw'.kill ≡ KillSwitch.run gw.kill kill_events
  pub records : List (AuditRecord × ℕ)
  pub proof_run : gw'.proof ≡ append_all w.services gw.proof records
  pub same_guard : gw'.guard ≡ gw.guard
  pub same_sandbox : gw'.sandbox ≡ gw.sandbox

run-append_executor :
    (eg : Executor.ExecuteGuard) (cs ds : List Executor.Call)
    → Executor.run eg (cs ++ ds) ≡ Executor.run (Executor.run eg cs) ds
unfolding Executor.run
run-append_executor eg [] ds = refl
run-append_executor eg (c ∷ cs) ds = run-append_executor (Executor.step eg c) cs ds

run-append_approval :
    (svc : Approval.ApprovalService) (cs ds : List Approval.Call)
    → Approval.run svc (cs ++ ds) ≡ Approval.run (Approval.run svc cs) ds
unfolding Approval.run
run-append_approval svc [] ds = refl
run-append_approval svc (c ∷ cs) ds = run-append_approval (Approval.step svc c) cs ds

run-append_kill :
    (ks : KillSwitch.KillSwitch) (cs ds : List KillSwitch.Event)
    → KillSwitch.run ks (cs ++ ds) ≡ KillSwitch.run (KillSwitch.run ks cs) ds
unfolding KillSwitch.run
run-append_kill ks [] ds = refl
run-append_kill ks (c ∷ cs) ds = run-append_kill (KillSwitch.step ks c) cs ds

append_all-append :
    (sv : Services) (pc : ProofChain) (rs ss : List (AuditRecord × ℕ))
    → append_all sv pc (rs ++ ss) ≡ append_all sv (append_all sv pc rs) ss
unfolding append_all
append_all-append sv pc [] ss = refl
append_all-append sv pc ((rec, now) ∷ rs) ss = append_all-append sv (append sv pc rec now).0 rs ss

-- The gateway after the given calls of each component.
of_calls :
    (w : World) (gw : SentinelGateway) (cs : List Executor.Call) (acs : List Approval.Call)
    (es : List KillSwitch.Event) (rs : List (AuditRecord × ℕ))
    → Runs w gw (record gw {
      executor = Executor.run gw.executor cs;
      approval = Approval.run gw.approval acs;
      kill = KillSwitch.run gw.kill es;
      proof = append_all w.services gw.proof rs;
    })
of_calls w gw cs acs es rs = record {
  executor_calls = cs;
  executor_run = refl;
  approval_calls = acs;
  approval_run = refl;
  kill_events = es;
  kill_run = refl;
  records = rs;
  proof_run = refl;
  same_guard = refl;
  same_sandbox = refl;
}

pub Runs-refl : (w : World) (gw : SentinelGateway) → Runs w gw gw
unfolding Executor.run Approval.run KillSwitch.run append_all
Runs-refl w gw = of_calls w gw [] [] [] []

pub Runs-trans : (w : World) (a b c : SentinelGateway) → Runs w a b → Runs w b c → Runs w a c
Runs-trans w a b c f g = record {
  executor_calls = f.executor_calls ++ g.executor_calls;
  executor_run =
      g.executor_run
      ∙ ap (λ eg. Executor.run eg g.executor_calls) f.executor_run
      ∙ sym (run-append_executor a.executor f.executor_calls g.executor_calls);
  approval_calls = f.approval_calls ++ g.approval_calls;
  approval_run =
      g.approval_run
      ∙ ap (λ svc. Approval.run svc g.approval_calls) f.approval_run
      ∙ sym (run-append_approval a.approval f.approval_calls g.approval_calls);
  kill_events = f.kill_events ++ g.kill_events;
  kill_run =
      g.kill_run
      ∙ ap (λ ks. KillSwitch.run ks g.kill_events) f.kill_run
      ∙ sym (run-append_kill a.kill f.kill_events g.kill_events);
  records = f.records ++ g.records;
  proof_run =
      g.proof_run
      ∙ ap (λ pc. append_all w.services pc g.records) f.proof_run
      ∙ sym (append_all-append w.services a.proof f.records g.records);
  same_guard = g.same_guard ∙ f.same_guard;
  same_sandbox = g.same_sandbox ∙ f.same_sandbox;
}

-- One call of one component.
pub executor_call :
    (w : World) (gw : SentinelGateway) (c : Executor.Call)
    → Runs w gw (record gw { executor = Executor.step gw.executor c })
unfolding Executor.run Approval.run KillSwitch.run append_all
executor_call w gw c = of_calls w gw (c ∷ []) [] [] []

pub approval_call :
    (w : World) (gw : SentinelGateway) (c : Approval.Call)
    → Runs w gw (record gw { approval = Approval.step gw.approval c })
unfolding Executor.run Approval.run KillSwitch.run append_all
approval_call w gw c = of_calls w gw [] (c ∷ []) [] []

pub kill_event :
    (w : World) (gw : SentinelGateway) (e : KillSwitch.Event)
    → Runs w gw (record gw { kill = KillSwitch.step gw.kill e })
unfolding Executor.run Approval.run KillSwitch.run append_all
kill_event w gw e = of_calls w gw [] [] (e ∷ []) []

pub append_call :
    (w : World) (gw : SentinelGateway) (rec : AuditRecord) (now : ℕ)
    → Runs w gw (record gw { proof = (append w.services gw.proof rec now).0 })
unfolding Executor.run Approval.run KillSwitch.run append_all
append_call w gw rec now = of_calls w gw [] [] [] ((rec, now) ∷ [])

-- The log is not a component.
pub logged :
    (w : World) (gw gw' : SentinelGateway) (log : List AuditRecord)
    → Runs w (record gw { audit_log = log }) gw'
    → Runs w gw gw'
logged w gw gw' log r = record {
  executor_calls = r.executor_calls;
  executor_run = r.executor_run;
  approval_calls = r.approval_calls;
  approval_run = r.approval_run;
  kill_events = r.kill_events;
  kill_run = r.kill_run;
  records = r.records;
  proof_run = r.proof_run;
  same_guard = r.same_guard;
  same_sandbox = r.same_sandbox;
}
