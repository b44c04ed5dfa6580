-- ===== src/Tests/Decisions.antt =====
-- A challenge that handler 0 starts and handler 1 decides, at concrete requests.
use sentinel_protocol.Base.{
  get, put, ◌≡◌, refl, ◌∙◌, ap, ◌≢◌, true, false, none, some, ◌++◌, arith, err, ℕ, ℕ_discrete,
  if_neg, pos,
}
use sentinel_protocol.Text.{Text-discrete, text}
use sentinel_protocol.Approval.{
  ApprovalChallenge, status_text, confirm, confirm_found, is_pending, new_challenge,
  start_challenge, new_approval_service, with_challenge, decided_challenge,
}
use sentinel_protocol.Approval.Final.{challenge_at}
use sentinel_protocol.Gateway.{
  SentinelGateway, new_sentinel_gateway, Draws, ApprovalStartRequest, ApprovalConfirmRequest,
}
use sentinel_protocol.Gateway.Serve.{starts_approval, confirms_approval, after_confirm}
use sentinel_protocol.Gateway.Threads.{
  Pc, idle, start_entry, confirm_entry, entry, advance, System, update, arrives, moves, Reach, boot,
  later,
}
use sentinel_protocol.Gateway.Threads.Effects.{draws_of}
use sentinel_protocol.Gateway.Threads.Challenges.{decided_by}
use sentinel_protocol.Gateway.Threads.Orderly.{AskApart}
use sentinel_protocol.Gateway.Threads.Decided.{interleaved_decides_once}
use sentinel_protocol.Tests.Pair.{pair_apart}
use sentinel_protocol.Tests.Gateways.{gateway}
use sentinel_protocol.Tests.Fixtures.{ls, pay, agent, world, draws, plain_guard, gateway_config}

abbrev asks_approval : ApprovalStartRequest
asks_approval = record { action = ls; prompt = ls; score = pos 80 }

abbrev approves_it : ApprovalConfirmRequest
approves_it = record { challenge_id = pay; approves = true; decided_by = agent }

-- The second handler comes in time, and would draw another identifier.
abbrev second_draws : Draws
second_draws = record draws { started_at = 9; decided_at = 10; issued_at = 11; challenge_id = ls }

abbrev start_begun : System
start_begun = record {
  gw = gateway;
  threads = update (λ i. idle) 0 (start_entry draws asks_approval);
}

abbrev start_ended : System
start_ended = record {
  gw = (advance world gateway (start_entry draws asks_approval)).0;
  threads =
      update start_begun.threads 0 (advance world gateway (start_entry draws asks_approval)).1;
}

abbrev confirm_begun : System
confirm_begun = record {
  gw = start_ended.gw;
  threads = update start_ended.threads 1 (confirm_entry second_draws approves_it);
}

abbrev decided : SentinelGateway × Pc
decided = advance world start_ended.gw (confirm_entry second_draws approves_it)

abbrev confirm_ended : System
confirm_ended = record {
  gw = (advance world decided.0 decided.1).0;
  threads =
      update (update confirm_begun.threads 1 decided.1) 1 (advance world decided.0 decided.1).1;
}

confirm_ends : Reach world gateway confirm_ended
unfolding entry ℕ_discrete
confirm_ends =
    later
      (later
        (later
          (later (later boot (arrives 0 draws (starts_approval true (some asks_approval)) refl))
            (moves 0))
          (arrives 1 second_draws (confirms_approval true (some approves_it)) refl))
        (moves 1))
      (moves 1)

decided_1 : decided_by (confirm_ended.threads 1) ≡ some pay
unfolding advance start_challenge new_challenge confirm confirm_found with_challenge
    decided_challenge get put Text-discrete ℕ_discrete after_confirm new_sentinel_gateway
    new_approval_service
decided_1 = refl

draws_0 : draws_of (confirm_ended.threads 0) ≡ some draws
unfolding ℕ_discrete advance
draws_0 = refl

draws_1 : draws_of (confirm_ended.threads 1) ≡ some second_draws
unfolding advance start_challenge new_challenge confirm confirm_found with_challenge
    decided_challenge get put Text-discrete ℕ_discrete after_confirm new_sentinel_gateway
    new_approval_service
draws_1 = refl

draws_other : (i : ℕ) → 0 ≢ i → 1 ≢ i → draws_of (confirm_ended.threads i) ≡ none
draws_other i not_0 not_1 =
    ap (λ pc. draws_of pc)
      (if_neg (ℕ_discrete 1 i) not_1 (advance world decided.0 decided.1).1
          (update confirm_begun.threads 1 decided.1 i)
        ∙ if_neg (ℕ_discrete 1 i) not_1 decided.1 (confirm_begun.threads i)
        ∙ if_neg (ℕ_discrete 1 i) not_1 (confirm_entry second_draws approves_it)
            (start_ended.threads i)
        ∙ if_neg (ℕ_discrete 0 i) not_0 (advance world gateway (start_entry draws asks_approval)).1
            (start_begun.threads i)
        ∙ if_neg (ℕ_discrete 0 i) not_0 (start_entry draws asks_approval) idle)

ids_differ : pay ≢ ls
ids_differ h = ground arith

both_apart : AskApart confirm_ended.threads
both_apart i j d e hi hj same =
    pair_apart confirm_ended.threads draws second_draws (λ d. d.challenge_id) i j d e
      (record { draws_0 = draws_0; draws_1 = draws_1; others = draws_other }) ids_differ hi hj same

interleaved_decides_once_example :
    let handler : ℕ = 1 in
    (handler ≡ handler)
    × (ch : ApprovalChallenge) × (challenge_at confirm_ended.gw.approval pay ≡ some ch)
    × (is_pending ch.status ≡ false)
    × (confirm confirm_ended.gw.approval pay false ls 12 13 ≡ (
      confirm_ended.gw.approval,
      err (text "challenge " ++ (pay ++ (text " is already " ++ status_text ch.status))),
    ))
interleaved_decides_once_example =
    interleaved_decides_once world plain_guard none gateway_config confirm_ended 1 1 pay false ls 12
      13 confirm_ends both_apart decided_1 decided_1
