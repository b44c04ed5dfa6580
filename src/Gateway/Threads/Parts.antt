-- ===== src/Gateway/Threads/Parts.antt =====
-- What the parts of a handler make known.
use sentinel_protocol.Base.{
  ◌≡◌, refl, false, Option, none, some, [], if_both, if_both_by, arith, Fallible, ok, err,
}
use sentinel_protocol.Text.{Text}
use sentinel_protocol.Guard.Config.{RiskEvaluation, AuditRecord}
use sentinel_protocol.Guard.Audit.{enforce}
use sentinel_protocol.Executor.{ExecuteToken, issue, new_token}
use sentinel_protocol.Approval.{ApprovalChallenge}
use sentinel_protocol.ProofChain.{ProofEntry, append, next_entry}
use sentinel_protocol.ProofChain.Chain.{entries-append}
use sentinel_protocol.Gateway.{
  SentinelGateway, World, Draws, GateRequest, ExecuteRequest, GateResponse, confirmed, Reply, reply,
}
use sentinel_protocol.Gateway.Gate.{respond, capability_denied, is_hard_block}
use sentinel_protocol.Gateway.Serve.{after_confirm, after_redeem, is_approved}
use sentinel_protocol.Gateway.Threads.{done, after_enforce, executed_pc}
use sentinel_protocol.Gateway.Threads.Facts.{IsAsked, enforced, chained, answered, fact_of, Holds}
use sentinel_protocol.Gateway.Threads.Every.{Asked}

pub respond-Holds :
    (w : World) (o : Asked) (d : Draws) (gw : SentinelGateway) (req : GateRequest)
    (eval : RiskEvaluation) (rec : AuditRecord) (link : ProofEntry)
    → Holds w o gw (chained d req eval rec link)
    → let (after, resp) = respond d gw req eval rec link in Holds w o after (answered d resp)
unfolding respond capability_denied issue new_token
respond-Holds w o d gw req eval rec link (asked, clear, e, stands, same) =
    if_both_by allowed eval.should_block _ _
      (λ blocks.
        if_both allowed (is_hard_block eval) _ _
          (λ tok none_given. absurd (ground (arith, none_given)))
          (λ tok none_given. absurd (ground (arith, none_given))))
      (λ passes. λ tok given. (
        req,
        asked,
        record {
          eval = eval;
          rec = rec;
          link = link;
          capable = clear;
          enforced = e;
          unblocked = passes;
          chained = stands;
          same_record = same;
          answers_allow = refl;
          answers_score = refl;
          answers_record = refl;
          answers_index = refl;
          answers_action = ground (arith, given);
        },
      ))
  where
    allowed : SentinelGateway × GateResponse → Type 0
    allowed r = Holds w o r.0 (answered d r.1)

pub enforced-Holds :
    (w : World) (o : Asked) (gw : SentinelGateway) (d : Draws) (req : GateRequest)
    → IsAsked o d req
    → capability_denied gw req ≡ false
    → let e = enforce w.outside gw.guard d.evaluated_at req.action req.prompt gw.audit_log in
      (failure : Option Text)
      → e.failure ≡ failure
      → Holds w o (record gw { audit_log = e.log }) (fact_of (after_enforce d req e failure))
unfolding capability_denied
enforced-Holds w o gw d req asked clear (some why) h = tt
enforced-Holds w o gw d req asked clear none h =
    (asked, clear, record { log = gw.audit_log; written = h; evaluated = refl; audited = refl })

pub recorded-Holds :
    (w : World) (o : Asked) (gw : SentinelGateway) (d : Draws) (req : GateRequest)
    (eval : RiskEvaluation) (rec : AuditRecord)
    → Holds w o gw (enforced d req eval rec)
    → let (proof, link) = append w.services gw.proof rec d.batched_at in
      Holds w o (record gw { proof = proof }) (chained d req eval rec link)
unfolding capability_denied next_entry append
recorded-Holds w o gw d req eval rec (asked, clear, e) = (
  asked,
  clear,
  e,
  (gw.proof.entries, [], entries-append w.services gw.proof rec d.batched_at, refl),
  refl,
)

pub after_confirm-Holds :
    (w : World) (o : Asked) (d : Draws) (gw : SentinelGateway) (result : Fallible ApprovalChallenge)
    → let (after, r) = after_confirm d gw result in Holds w o after (fact_of (done d r))
unfolding after_confirm
after_confirm-Holds w o d gw (err e) = tt
after_confirm-Holds w o d gw (ok ch) =
    let (executor, tok) = issue gw.executor ch.action d.token_bytes d.issued_at in
    if_both (λ (r : SentinelGateway × Reply). Holds w o r.0 (fact_of (done d r.1)))
      (is_approved ch.status)
      (record gw { executor = executor }, reply 200 (confirmed ch (some tok)))
      (gw, reply 200 (confirmed ch none)) tt tt

pub redeemed-Holds :
    (w : World) (o : Asked) (gw gw' : SentinelGateway) (d : Draws) (req : ExecuteRequest)
    (result : Fallible ExecuteToken)
    → Holds w o gw' (fact_of (executed_pc w d gw req result))
unfolding after_redeem
redeemed-Holds w o gw gw' d req (err e) = tt
redeemed-Holds w o gw gw' d req (ok tok) = tt
