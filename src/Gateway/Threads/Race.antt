-- ===== src/Gateway/Threads/Race.antt =====
-- A switch that is armed while a gate is under way: the gate reads it twice, and issues its token
-- after the second reading.
use sentinel_protocol.Base.{
  ℕ, zero, suc, ◌≡◌, refl, sym, ◌∙◌, ◌≢◌, true, false, Option, none, some, arith, ap, subst,
  ℕ_discrete, if_neg,
}
use sentinel_protocol.Text.{Text, text}
use sentinel_protocol.Guard.Config.{RiskEvaluation, AuditRecord, or_default}
use sentinel_protocol.Guard.Audit.{Enforcement, enforce}
use sentinel_protocol.KillSwitch.{is_armed, arm}
use sentinel_protocol.Executor.{ExecuteToken, issue, new_token}
use sentinel_protocol.ProofChain.{ProofEntry, append}
use sentinel_protocol.Gateway.{
  SentinelGateway, World, Draws, GateRequest, GateResponse, allow, gated, reply,
}
use sentinel_protocol.Gateway.Gate.{
  gate, enforce_and_settle, settle, conclude, respond, auto_armed_response,
}
use sentinel_protocol.Gateway.Serve.{gates, arms_kill_switch}
use sentinel_protocol.Gateway.Granted.{token_of}
use sentinel_protocol.Gateway.Safety.{gate_token}
use sentinel_protocol.Gateway.Threads.{
  Pc, idle, gate_entry, gate_recorded, gate_passed, arm_entry, switch_set, entry, after_enforce,
  advance, System, update, Step, arrives, moves, Reach, boot, later, done, reply_of,
}
use sentinel_protocol.Gateway.Threads.Alone.{alone}
use sentinel_protocol.Gateway.Threads.Tokens.{update_self}
use sentinel_protocol.Gateway.Threads.Every.{asked_of}

-- The gate before its last step, and the evaluation that does not block.
record IsPassed (d : Draws) (req : GateRequest) (tok : ExecuteToken)
    (reached : SentinelGateway × Pc) : Type 0 where
  eval : RiskEvaluation
  rec : AuditRecord
  link : ProofEntry
  stands : reached.1 ≡ gate_passed d req eval rec link
  unblocked : eval.should_block ≡ false
  token : tok ≡ (issue reached.0.executor req.action d.token_bytes d.issued_at).1

counted_passes :
    (w : World) (gw : SentinelGateway) (d : Draws) (req : GateRequest) (eval : RiskEvaluation)
    (rec : AuditRecord) (tok : ExecuteToken)
    → token_of (conclude w d gw req eval rec).1.body ≡ some tok
    → IsPassed d req tok (alone w 3 (gw, gate_recorded d req eval rec))
unfolding conclude auto_armed_response alone advance respond issue new_token
counted_passes w gw d req eval rec tok h = record {
  eval = eval;
  rec = rec;
  link = (append w.services gw.proof rec d.batched_at).1;
  stands = ground arith;
  unblocked = ground arith;
  token = ground arith;
}

enforced_passes :
    (w : World) (gw : SentinelGateway) (d : Draws) (req : GateRequest) (e : Enforcement)
    (failure : Option Text) (tok : ExecuteToken)
    → token_of (settle w d gw req e failure).1.body ≡ some tok
    → IsPassed d req tok (alone w 3 (gw, after_enforce d req e failure))
enforced_passes w gw d req e (some why) tok h = absurd (ground arith)
enforced_passes w gw d req e none tok h = counted_passes w gw d req e.eval e.audit tok h

gate_passes :
    (w : World) (gw : SentinelGateway) (d : Draws) (req : GateRequest) (tok : ExecuteToken)
    → token_of (gate w d gw req).1.body ≡ some tok
    → IsPassed d req tok (alone w 6 (gw, gate_entry d req))
unfolding enforce_and_settle alone advance
gate_passes w gw d req tok h =
    let (disarmed, (capable, same)) = gate_token w d gw req tok h in
    let e : Enforcement =
      enforce w.outside gw.guard d.evaluated_at req.action req.prompt gw.audit_log in
    rw (disarmed, capable)
      (enforced_passes w (record gw { audit_log = e.log }) d req e e.failure tok (rw (sym same) h))

-- A handler may run so many steps with no other between them.
pub solo :
    {w : World} {gw : SentinelGateway} (n i : ℕ) (s : System)
    → Reach w gw s
    → (t : System) × Reach w gw t
      × ((t.gw, t.threads i) ≡ alone w n (s.gw, s.threads i))
      × ((j : ℕ) → i ≢ j → t.threads j ≡ s.threads j)
unfolding alone
solo zero i s r = (s, r, refl, λ j apart. refl)
solo {w} {gw} (suc n) i s r =
    let (gw', p) = advance w s.gw (s.threads i) in
    let next : System = record { gw = gw'; threads = update s.threads i p } in
    let (t, reached, ends, others) = solo n i next (later r (moves i)) in
    (
      t,
      reached,
      ends ∙ ap (λ q. alone w n (gw', q)) (update_self s.threads i p),
      λ j apart. others j apart ∙ if_neg (ℕ_discrete i j) apart p (s.threads j),
    )

pub solo-asked :
    {w : World} {gw : SentinelGateway} (n i : ℕ) (s : System) (r : Reach w gw s) (k : ℕ)
    → asked_of (solo n i s r).1 k ≡ asked_of r k
unfolding solo
solo-asked zero i s r k = refl
solo-asked {w} {gw} (suc n) i s r k =
    let (gw', p) = advance w s.gw (s.threads i) in
    let next : System = record { gw = gw'; threads = update s.threads i p } in
    solo-asked n i next (later r (moves i)) k

-- Just before a token: a reachable system where the switch is armed and handler 0, which was asked for
-- this gate, stands before its reply, and the system one step later, where it has replied ALLOW with
-- the token.
pub record IsRaced (w : World) (gw : SentinelGateway) (d : Draws) (req : GateRequest)
    (tok : ExecuteToken) : Type 0 where
  pub armed : System
  pub granted : System
  pub reached : Reach w gw armed
  pub asked : asked_of reached 0 ≡ some (d, gates true (some req))
  pub one_step : Step w armed granted
  pub armed_before : is_armed armed.gw.kill ≡ true
  pub not_replied : reply_of (armed.threads 0) ≡ none
  pub armed_after : is_armed granted.gw.kill ≡ true
  pub resp : GateResponse
  pub replied : granted.threads 0 ≡ done d (reply 200 (gated resp))
  pub allows : resp.decision ≡ allow
  pub grants_token : resp.token ≡ some tok

respond_armed :
    (d : Draws) (gw : SentinelGateway) (req : GateRequest) (eval : RiskEvaluation)
    (rec : AuditRecord) (link : ProofEntry)
    → eval.should_block ≡ false
    → let (after, resp) = respond d gw req eval rec link in
      (after.kill ≡ gw.kill)
      × (resp.decision ≡ allow)
      × (resp.token ≡ some (issue gw.executor req.action d.token_bytes d.issued_at).1)
unfolding respond
respond_armed d gw req eval rec link h = ground arith

-- A handler that arms the switch while a gate stands before its last step.
overtaken :
    (w : World) (gw : SentinelGateway) (s : System) (d other : Draws) (req : GateRequest)
    (eval : RiskEvaluation) (rec : AuditRecord) (link : ProofEntry) (reason : Text)
    (reached : Reach w gw s)
    → asked_of reached 0 ≡ some (d, gates true (some req))
    → s.threads 1 ≡ idle
    → s.threads 0 ≡ gate_passed d req eval rec link
    → eval.should_block ≡ false
    → IsRaced w gw d req (issue s.gw.executor req.action d.token_bytes d.issued_at).1
unfolding entry advance arm is_armed ℕ_discrete
overtaken w gw s d other req eval rec link reason reached asked free at_gate passes =
    let arrived : System = record {
      gw = s.gw;
      threads = update s.threads 1 (arm_entry other reason);
    } in
    let armed : System = record {
      gw = record s.gw {
        kill = arm s.gw.kill (or_default reason (text "manual arm via API")) other.counted_at;
      };
      threads = update arrived.threads 1 (switch_set other);
    } in
    let (kept, says, given) = respond_armed d armed.gw req eval rec link passes in
    let (after, p) = advance w armed.gw (armed.threads 0) in
    record {
      armed = armed;
      granted = record { gw = after; threads = update armed.threads 0 p };
      reached =
          later (later reached (arrives 1 other (arms_kill_switch true reason) free)) (moves 1);
      asked = asked;
      one_step = moves 0;
      armed_before = refl;
      not_replied = rw at_gate refl;
      armed_after = rw at_gate (ap (λ k. is_armed k) kept);
      resp = (respond d armed.gw req eval rec link).1;
      replied = rw at_gate refl;
      allows = says;
      grants_token = given;
    }

-- A gate that hands out a token when it runs alone can be overtaken: after its last reading of the
-- switch another handler arms it, and one step later the gate replies ALLOW with the token under the
-- armed switch.
pub armed_gate_can_grant :
    (w : World) (gw : SentinelGateway) (d other : Draws) (req : GateRequest) (reason : Text)
    (tok : ExecuteToken)
    → token_of (gate w d gw req).1.body ≡ some tok
    → IsRaced w gw d req tok
unfolding entry alone ℕ_discrete
armed_gate_can_grant w gw d other req reason tok h =
    let started : System = record {
      gw = gw;
      threads = update (λ i. idle) 0 (entry d (gates true (some req)));
    } in
    let begun : Reach w gw started = later boot (arrives 0 d (gates true (some req)) refl) in
    let (s, reached, ends, others) = solo 6 0 started begun in
    let passed = gate_passes w gw d req tok h in
    let at_gate : s.threads 0 ≡ gate_passed d req passed.eval passed.rec passed.link =
      ap (λ (q : SentinelGateway × Pc). q.1) ends ∙ passed.stands in
    let same_gw : s.gw ≡ (alone w 6 (gw, gate_entry d req)).0 =
      ap (λ (q : SentinelGateway × Pc). q.0) ends in
    subst (IsRaced w gw d req)
      (ap (λ (g : SentinelGateway). (issue g.executor req.action d.token_bytes d.issued_at).1)
          same_gw
        ∙ sym passed.token)
      (overtaken w gw s d other req passed.eval passed.rec passed.link reason reached
        (solo-asked 6 0 started begun 0) (others 1 (ground arith)) at_gate passed.unblocked)
