-- ===== src/Modes/Proxy/Limits.antt =====
-- The limits that the proxy sets hold at every moment of its gateway.
use sentinel_protocol.Base.{
  ℕ, ℕ_discrete, Bool, ◌+◌, ◌≡◌, refl, sym, ap, subst, ◌∙◌, Option, none, some, List, [], ◌∷◌,
  arith, pos, Fallible, ok, err,
}
use sentinel_protocol.Text.{Text}
use sentinel_protocol.Guard.Config.{SentinelGuard, AuditRecord, new_sentinel_guard}
use sentinel_protocol.Executor
use sentinel_protocol.Executor.{
  ExecuteToken, ExecuteGuard, issue, redeem, redeem_found, new_token, new_execute_guard,
}
use sentinel_protocol.Executor.OneTime.{token_at}
use sentinel_protocol.Approval
use sentinel_protocol.KillSwitch
use sentinel_protocol.KillSwitch.Counting.{run-threshold}
use sentinel_protocol.ProofChain.{
  Services, ProofChain, append, append_all, flush_batch, new_proof_chain,
}
use sentinel_protocol.Gateway.{SentinelGateway, World, new_sentinel_gateway}
use sentinel_protocol.OpenClaw.{OpenClawClient}
use sentinel_protocol.Gateway.Threads.{
  Pc, entry, advance, System, update, Step, arrives, moves, watches, Reach, boot, later,
}
use sentinel_protocol.Gateway.Threads.Shared.{Reach-Runs}
use sentinel_protocol.Gateway.Threads.Begin.{entry-HasBegun}
use sentinel_protocol.Gateway.Threads.Effects.{
  granted_by, Touch, rests, grants, spends, advance-Touch,
}
use sentinel_protocol.Modes.{SentinelOneClickConfig, resolve_sentinel_config}
use sentinel_protocol.Modes.Proxy.{
  run_sentinel_proxy_mode, with_proxy_guard, proxy_config, proxy_client,
}

redeem_found-ttl :
    (eg : ExecuteGuard) (id : Text) (now : ℕ) (o : Option ExecuteToken)
    → (redeem_found eg id now o).0.ttl ≡ eg.ttl
unfolding redeem_found
redeem_found-ttl eg id now none = refl
redeem_found-ttl eg id now (some tok) = ground arith

run-ttl : (eg : ExecuteGuard) (cs : List Executor.Call) → (Executor.run eg cs).ttl ≡ eg.ttl
unfolding Executor.run Executor.step issue redeem
run-ttl eg [] = refl
run-ttl eg (Executor.issues action bytes now ∷ cs) =
    run-ttl (Executor.step eg (Executor.issues action bytes now)) cs
run-ttl eg (Executor.redeems id now ∷ cs) =
    run-ttl (Executor.step eg (Executor.redeems id now)) cs
    ∙ redeem_found-ttl eg id now (token_at eg id)

confirm_found-timeout :
    (svc : Approval.ApprovalService) (id : Text) (approves : Bool) (who : Text) (now decided : ℕ)
    (o : Option Approval.ApprovalChallenge)
    → (Approval.confirm_found svc id approves who now decided o).0.timeout ≡ svc.timeout
unfolding Approval.confirm_found Approval.with_challenge
confirm_found-timeout svc id approves who now decided none = refl
confirm_found-timeout svc id approves who now decided (some ch) = ground arith

step-timeout :
    (svc : Approval.ApprovalService) (c : Approval.Call)
    → (Approval.step svc c).timeout ≡ svc.timeout
unfolding Approval.step Approval.start_challenge Approval.with_challenge Approval.confirm
    Approval.clean_expired
step-timeout svc (Approval.starts action prompt score id now) = refl
step-timeout svc (Approval.confirms id approves who now decided) =
    confirm_found-timeout svc id approves who now decided _
step-timeout svc (Approval.cleans now) = refl

run-timeout :
    (svc : Approval.ApprovalService) (cs : List Approval.Call)
    → (Approval.run svc cs).timeout ≡ svc.timeout
unfolding Approval.run
run-timeout svc [] = refl
run-timeout svc (c ∷ cs) = run-timeout (Approval.step svc c) cs ∙ step-timeout svc c

append-batch_size :
    (sv : Services) (pc : ProofChain) (rec : AuditRecord) (now : ℕ)
    → (append sv pc rec now).0.batch_size ≡ pc.batch_size
unfolding append flush_batch
append-batch_size sv pc rec now = ground arith

append_all-batch_size :
    (sv : Services) (pc : ProofChain) (recs : List (AuditRecord × ℕ))
    → (append_all sv pc recs).batch_size ≡ pc.batch_size
unfolding append_all
append_all-batch_size sv pc [] = refl
append_all-batch_size sv pc ((rec, now) ∷ recs) =
    append_all-batch_size sv (append sv pc rec now).0 recs ∙ append-batch_size sv pc rec now

-- Every token in the reply of a handler expires so long after its issue.
abbrev AllExpire : ℕ → (ℕ → Pc) → Type 0
AllExpire ttl threads =
    (k : ℕ) (tok : ExecuteToken)
    → granted_by (threads k) ≡ some tok
    → tok.expires_at ≡ tok.issued_at + ttl

-- A handler grants nothing that was not granted before but a token that expires in time.
update-AllExpire :
    (ttl : ℕ) (threads : ℕ → Pc) (i : ℕ) (p : Pc)
    → AllExpire ttl threads
    → ((tok : ExecuteToken) → granted_by p ≡ some tok → tok.expires_at ≡ tok.issued_at + ttl)
    → AllExpire ttl (update threads i p)
update-AllExpire ttl threads i p all this k tok h = elim (ℕ_discrete i k) [
  | yes same ↦ this tok (ground arith)
  | no apart ↦ all k tok (ground arith)
]

Touch-expires :
    {eg eg' : ExecuteGuard} {p : Pc} (threads : ℕ → Pc) (i : ℕ) (tok : ExecuteToken)
    → Touch eg (threads i) eg' p
    → AllExpire eg.ttl threads
    → granted_by p ≡ some tok
    → tok.expires_at ≡ tok.issued_at + eg.ttl
unfolding issue new_token
Touch-expires threads i tok (rests same draws gives runs) all h = all i tok (sym gives ∙ h)
Touch-expires threads i tok (grants d action next drew draws gave gives ran runs) all h =
    ground (arith, sym gives ∙ h)
Touch-expires threads i tok (spends id now used ok_it next draws gives ran runs) all h =
    all i tok (sym gives ∙ h)

Step-AllExpire :
    {w : World} {s t : System}
    → Step w s t
    → AllExpire s.gw.executor.ttl s.threads
    → AllExpire s.gw.executor.ttl t.threads
Step-AllExpire {w} {s} (arrives i d r free) all =
    let (_, fresh, _, _) = entry-HasBegun d r in
    update-AllExpire s.gw.executor.ttl s.threads i (entry d r) all
      (λ tok h. absurd (ground (arith, fresh, h)))
Step-AllExpire {w} {s} (moves i) all =
    update-AllExpire s.gw.executor.ttl s.threads i (advance w s.gw (s.threads i)).1 all
      (λ tok. Touch-expires s.threads i tok (advance-Touch w s.gw (s.threads i)) all)
Step-AllExpire {w} {s} (watches now) all = all

Reach-ttl :
    {w : World} {gw : SentinelGateway} {s : System}
    → Reach w gw s
    → s.gw.executor.ttl ≡ gw.executor.ttl
Reach-ttl {w} {gw} {s} r =
    let runs = Reach-Runs r in
    ap (λ eg. eg.ttl) runs.executor_run ∙ run-ttl gw.executor runs.executor_calls

Reach-AllExpire :
    {w : World} {gw : SentinelGateway} {s : System}
    → Reach w gw s
    → AllExpire gw.executor.ttl s.threads
Reach-AllExpire boot = λ k tok h. absurd (ground (arith, h))
Reach-AllExpire {w} {gw} (later {s} {t} r st) =
    let ttl : s.gw.executor.ttl ≡ gw.executor.ttl = Reach-ttl r in
    let before : AllExpire s.gw.executor.ttl s.threads =
      subst (λ n. AllExpire n s.threads) (sym ttl) (Reach-AllExpire r) in
    subst (λ n. AllExpire n t.threads) ttl (Step-AllExpire st before)

abbrev IsProxied : Text → SentinelGateway → Type 0
IsProxied walrus_url gw =
    (guard : SentinelGuard) × (oc : Option OpenClawClient) × (gw
      ≡ new_sentinel_gateway guard oc (proxy_config walrus_url))

guarded-IsProxied :
    (cfg : SentinelOneClickConfig) (walrus_url : Text) (guard : Option SentinelGuard)
    (gw : SentinelGateway)
    → with_proxy_guard cfg walrus_url guard ≡ ok gw
    → IsProxied walrus_url gw
guarded-IsProxied cfg walrus_url none gw h = absurd (ground (arith, h))
guarded-IsProxied cfg walrus_url (some guard) gw h = (guard, proxy_client guard cfg.openclaw, cc)

-- The proxy serves a new gateway with its constants.
proxy-IsProxied :
    (loaded : Fallible SentinelOneClickConfig) (now : ℕ) (walrus_url : Text) (gw : SentinelGateway)
    → run_sentinel_proxy_mode loaded now walrus_url ≡ ok gw
    → IsProxied walrus_url gw
unfolding run_sentinel_proxy_mode
proxy-IsProxied (err e) now walrus_url gw h = absurd (ground (arith, h))
proxy-IsProxied (ok cfg) now walrus_url gw h =
    guarded-IsProxied cfg walrus_url
      (new_sentinel_guard (some (resolve_sentinel_config cfg.sentinel)) now) gw h

-- At every moment of the gateway that the proxy serves, however its handlers interleave: the switch
-- arms after three high-risk evaluations in a row, a challenge has five minutes, a token thirty
-- seconds, and a batch ten entries.
proxy_limits :
    (w : World) (loaded : Fallible SentinelOneClickConfig) (now : ℕ) (walrus_url : Text)
    (gw : SentinelGateway) (s : System)
    → run_sentinel_proxy_mode loaded now walrus_url ≡ ok gw
    → Reach w gw s
    → (s.gw.kill.threshold ≡ pos 3)
      × (s.gw.approval.timeout ≡ 300000000000)
      × (s.gw.executor.ttl ≡ 30000000000)
      × (s.gw.proof.batch_size ≡ 10)
unfolding new_sentinel_gateway KillSwitch.new_kill_switch Approval.new_approval_service
    new_execute_guard new_proof_chain
proxy_limits w loaded now walrus_url gw s served r =
    let (guard, oc, same) = proxy-IsProxied loaded now walrus_url gw served in
    let runs = Reach-Runs r in
    (
      ap (λ ks. ks.threshold) runs.kill_run
          ∙ run-threshold gw.kill runs.kill_events
          ∙ ap (λ g. g.kill.threshold) same,
      ap (λ svc. svc.timeout) runs.approval_run
          ∙ run-timeout gw.approval runs.approval_calls
          ∙ ap (λ g. g.approval.timeout) same,
      Reach-ttl r ∙ ap (λ g. g.executor.ttl) same,
      ap (λ pc. pc.batch_size) runs.proof_run
          ∙ append_all-batch_size w.services gw.proof runs.records
          ∙ ap (λ g. g.proof.batch_size) same,
    )

-- However the handlers of the proxy's gateway interleave, a token that one of them replied with
-- expires thirty seconds after it was issued.
pub proxy_token_expires :
    (w : World) (loaded : Fallible SentinelOneClickConfig) (now : ℕ) (walrus_url : Text)
    (gw : SentinelGateway) (s : System) (k : ℕ) (tok : ExecuteToken)
    → run_sentinel_proxy_mode loaded now walrus_url ≡ ok gw
    → Reach w gw s
    → granted_by (s.threads k) ≡ some tok
    → tok.expires_at ≡ tok.issued_at + 30000000000
unfolding new_sentinel_gateway new_execute_guard
proxy_token_expires w loaded now walrus_url gw s k tok served r given =
    let (guard, oc, same) = proxy-IsProxied loaded now walrus_url gw served in
    Reach-AllExpire r k tok given ∙ ap (λ g. tok.issued_at + g.executor.ttl) same
