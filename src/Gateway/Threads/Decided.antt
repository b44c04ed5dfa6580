-- ===== src/Gateway/Threads/Decided.antt =====
-- A challenge is decided by one handler only, however the handlers interleave.
use sentinel_protocol.Base.{
  ℕ, ◌≡◌, sym, ◌∙◌, ◌⊎◌, inl, inr, Bool, true, false, Option, none, some, arith, ap, subst, ◌++◌,
  ◌≢◌, err, get,
}
use sentinel_protocol.Text.{Text, text}
use sentinel_protocol.Guard.Config.{SentinelGuard}
use sentinel_protocol.OpenClaw.{OpenClawClient}
use sentinel_protocol.Approval.{
  ApprovalChallenge, ApprovalService, confirm, is_pending, status_text, Call, starts, confirms,
  cleans, step, new_approval_service,
}
use sentinel_protocol.Approval.Final.{challenge_at, LeavesFree, confirm_settled}
use sentinel_protocol.Approval.Keys.{
  IsKeyed, start_challenge-IsKeyed, confirm-IsKeyed, clean_expired-IsKeyed, IsThere,
  start_challenge-IsThere, confirm-IsThere, clean_expired-IsThere,
}
use sentinel_protocol.Gateway.{
  SentinelGateway, SentinelGatewayConfig, new_sentinel_gateway, World, Draws,
}
use sentinel_protocol.Gateway.Serve.{tick}
use sentinel_protocol.Gateway.Threads.{
  Pc, entry, advance, System, update, Step, arrives, moves, watches, Reach, boot, later,
}
use sentinel_protocol.Gateway.Threads.Begin.{entry-HasBegun}
use sentinel_protocol.Gateway.Threads.Challenges.{
  decided_by, is_done, decided_as, Ask, rests, asks, tries, advance-Ask,
}
use sentinel_protocol.Gateway.Threads.Effects.{draws_of}
use sentinel_protocol.Gateway.Threads.Orderly.{
  AskApart, Step-AskApart, IsSettled, IsOrderly, update-IsPast, update_decided, same_decided,
  quiet-IsOrderly, drawn_free, step-IsSettled, tried-IsSettled,
}

asked-IsOrderly :
    (svc : ApprovalService) (threads : ℕ → Pc) (i : ℕ) (p : Pc) (d : Draws) (c : Call)
    → ((id : Text) → IsThere (step svc c) id → (d.challenge_id ≡ id) ⊎ IsThere svc id)
    → ((id : Text) → d.challenge_id ≢ id → LeavesFree id c)
    → IsKeyed (step svc c)
    → AskApart threads
    → draws_of (threads i) ≡ some d
    → draws_of p ≡ some d
    → decided_by p ≡ decided_by (threads i)
    → is_done (threads i) ≡ false
    → is_done p ≡ true
    → IsOrderly svc threads
    → IsOrderly (step svc c) (update threads i p)
asked-IsOrderly svc threads i p d c added leaves keyed apart drew draws same unfinished ended o =
    record {
      keyed = keyed;
      drawn = λ id there. elim (added id there) [
        | inl new ↦ (i, d, ground arith, new, ground arith)
        | inr old ↦ update-IsPast threads i p id keeps (λ _. ended) (o.drawn id old)
      ];
      settled = λ j id h. kept_free id (o.settled j id (same_decided threads i p j id same h));
      once = (quiet-IsOrderly svc threads i p keeps (λ _. ended) same o).once;
    }
  where
    keeps : (e : Draws) → draws_of (threads i) ≡ some e → draws_of p ≡ some e
    keeps e at = draws ∙ sym drew ∙ at

    kept_free : (id : Text) → IsSettled svc id → IsSettled (step svc c) id
    kept_free id (ch, at, final) =
        step-IsSettled svc c id
          (leaves id (λ same_id.
            drawn_free svc threads i d apart o drew unfinished
              (ch, ap (λ k. challenge_at svc k) same_id ∙ at)))
          (ch, at, final)

tried-IsOrderly :
    (svc : ApprovalService) (threads : ℕ → Pc) (i : ℕ) (p : Pc) (id : Text) (approves : Bool)
    (who : Text) (now decided : ℕ)
    → draws_of p ≡ draws_of (threads i)
    → decided_by (threads i) ≡ none
    → decided_by p ≡ decided_as (confirm svc id approves who now decided).1
    → is_done (threads i) ≡ false
    → IsOrderly svc threads
    → IsOrderly (confirm svc id approves who now decided).0 (update threads i p)
unfolding step
tried-IsOrderly svc threads i p id approves who now decided draws idle_yet decides unfinished o =
    record {
      keyed = confirm-IsKeyed svc id approves who now decided o.keyed;
      drawn = λ other there.
          update-IsPast threads i p other (λ e at. draws ∙ at)
            (λ ended. absurd (ground (arith, ended, unfinished)))
            (o.drawn other (confirm-IsThere svc id approves who now decided other there));
      settled = λ j other h. elim (update_decided threads i p j other h) [
        | inl (_, at_p) ↦ (tried other (sym decides ∙ at_p)).0
        | inr before ↦
            step-IsSettled svc (confirms id approves who now decided) other tt
              (o.settled j other before)
      ];
      once = λ j k other hj hk. elim (update_decided threads i p j other hj) [
        | inl (i_j, at_p) ↦ elim (update_decided threads i p k other hk) [
          | inl (i_k, _) ↦ sym i_j ∙ i_k
          | inr before ↦ absurd (earlier k other at_p before)
        ]
        | inr bj ↦ elim (update_decided threads i p k other hk) [
          | inl (i_k, at_p) ↦ absurd (earlier j other at_p bj)
          | inr bk ↦ o.once j k other bj bk
        ]
      ];
    }
  where
    tried :
        (other : Text)
        → decided_as (confirm svc id approves who now decided).1 ≡ some other
        → IsSettled (confirm svc id approves who now decided).0 other × (IsSettled svc other → ⊥)
    tried other h = tried-IsSettled svc id approves who now decided other o.keyed h

    earlier :
        (n : ℕ) (other : Text) → decided_by p ≡ some other → decided_by (threads n) ≡ some other → ⊥
    earlier n other at_p before = (tried other (sym decides ∙ at_p)).1 (o.settled n other before)

advance-IsOrderly :
    (svc svc' : ApprovalService) (threads : ℕ → Pc) (i : ℕ) (p : Pc)
    → Ask svc (threads i) svc' p
    → AskApart threads
    → IsOrderly svc threads
    → IsOrderly svc' (update threads i p)
unfolding step
advance-IsOrderly svc svc' threads i p (rests same draws decides ends) apart o =
    subst (λ s. IsOrderly s (update threads i p)) (sym same)
      (quiet-IsOrderly svc threads i p (λ e at. draws ∙ at) ends decides o)
advance-IsOrderly svc svc' threads i p
      (asks d action prompt score next drew draws before after unfinished ended) apart o =
    subst (λ s. IsOrderly s (update threads i p)) (sym next)
      (asked-IsOrderly svc threads i p d (starts action prompt score d.challenge_id d.started_at)
        (λ id there.
          start_challenge-IsThere svc action prompt score d.challenge_id d.started_at id there)
        (λ id free. free)
        (start_challenge-IsKeyed svc action prompt score d.challenge_id d.started_at o.keyed) apart
        drew draws (after ∙ sym before) unfinished ended o)
advance-IsOrderly svc svc' threads i p
      (tries id approves who now decided result next came draws before after unfinished) apart o =
    subst (λ s. IsOrderly s (update threads i p)) (sym next)
      (tried-IsOrderly svc threads i p id approves who now decided draws before
        (after ∙ ap decided_as (sym came)) unfinished o)

Step-IsOrderly :
    {w : World} {s t : System}
    → Step w s t
    → AskApart s.threads
    → IsOrderly s.gw.approval s.threads
    → IsOrderly t.gw.approval t.threads
unfolding tick step
Step-IsOrderly {w} {s} (arrives i d r free) apart o =
    let (_, _, _, fresh) = entry-HasBegun d r in
    quiet-IsOrderly s.gw.approval s.threads i (entry d r)
      (λ e begun. absurd (ground (arith, ap draws_of free, begun)))
      (λ ended. absurd (ground (arith, ap is_done free, ended))) (fresh ∙ sym (ap decided_by free))
      o
Step-IsOrderly {w} {s} (moves i) apart o =
    let (gw', p) = advance w s.gw (s.threads i) in
    advance-IsOrderly s.gw.approval gw'.approval s.threads i p (advance-Ask w s.gw (s.threads i))
      apart o
Step-IsOrderly {w} {s} (watches now) apart o = record {
  keyed = clean_expired-IsKeyed s.gw.approval now o.keyed;
  drawn = λ id there. o.drawn id (clean_expired-IsThere s.gw.approval now id there);
  settled = λ j id h. step-IsSettled s.gw.approval (cleans now) id tt (o.settled j id h);
  once = o.once;
}

Reach-IsOrderly :
    {w : World} {gw : SentinelGateway} {s : System}
    → IsKeyed gw.approval
    → ((id : Text) → IsThere gw.approval id → ⊥)
    → Reach w gw s
    → AskApart s.threads
    → IsOrderly s.gw.approval s.threads
Reach-IsOrderly keyed empty boot apart = record {
  keyed = keyed;
  drawn = λ id there. absurd (empty id there);
  settled = λ i id h. absurd (ground (arith, h));
  once = λ i j id h. absurd (ground (arith, h));
}
Reach-IsOrderly keyed empty (later r st) apart =
    Step-IsOrderly st (Step-AskApart st apart)
      (Reach-IsOrderly keyed empty r (Step-AskApart st apart))

-- However handlers interleave, if no two of them draw the same identifier, then two that decide the
-- same challenge are one, the challenge is held under that identifier and no longer pending, and
-- from then on a Confirm of it is refused with its status and changes nothing.
pub interleaved_decides_once :
    (w : World) (guard : SentinelGuard) (oc : Option OpenClawClient) (cfg : SentinelGatewayConfig)
    (s : System) (i j : ℕ) (id : Text) (approves : Bool) (who : Text) (now decided : ℕ)
    → Reach w (new_sentinel_gateway guard oc cfg) s
    → AskApart s.threads
    → decided_by (s.threads i) ≡ some id
    → decided_by (s.threads j) ≡ some id
    → (i ≡ j)
      × (ch : ApprovalChallenge) × (challenge_at s.gw.approval id ≡ some ch)
      × (is_pending ch.status ≡ false)
      × (confirm s.gw.approval id approves who now decided ≡ (
        s.gw.approval,
        err (text "challenge " ++ (id ++ (text " is already " ++ status_text ch.status))),
      ))
unfolding new_sentinel_gateway new_approval_service get
interleaved_decides_once w guard oc cfg s i j id approves who now decided r apart hi hj =
    let o = Reach-IsOrderly tt none_there r apart in
    let (ch, at, final) = o.settled i id hi in
    (
      o.once i j id hi hj,
      ch,
      at,
      final,
      confirm_settled s.gw.approval id approves who now decided ch at final,
    )
  where
    none_there : (id : Text) → IsThere (new_sentinel_gateway guard oc cfg).approval id → ⊥
    none_there id (ch, at) = absurd (ground (arith, at))
