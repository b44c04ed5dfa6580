-- ===== src/Tests/Threads.antt =====
-- Handlers in flight together, at concrete requests: a gate under handler 0 and an execution of its
-- token under handler 1.
use sentinel_protocol.Base.{
  get, put, ◌≡◌, refl, ◌∙◌, ap, ◌≢◌, true, none, some, [], ◌∷◌, ◌++◌, arith, ok, err, ℕ, ℕ_discrete,
  if_neg,
}
use sentinel_protocol.Text.{Text-discrete, text, hex_encode, hex_digit, to_lower, contains, has_any}
use sentinel_protocol.KillSwitch.{new_kill_switch, is_armed, record_low_risk}
use sentinel_protocol.Executor.{
  ExecuteGuard, redeem, redeem_found, new_execute_guard, issue, new_token, generate_token_id,
}
use sentinel_protocol.Guard.Tags.{contains_tag}
use sentinel_protocol.Guard.Evaluate
use sentinel_protocol.Guard.Evaluate.{
  evaluate, add_behavior, keyword_tally, add_if, rule_text, injection_phrases, wallet_phrases,
  exec_phrases, outbound_phrases, bypass_phrases,
}
use sentinel_protocol.Guard.Audit.{enforce, append_audit, written, anchored}
use sentinel_protocol.ProofChain.Chain.{IsChained}
use sentinel_protocol.ProofChain.Batches.{IsBatched}
use sentinel_protocol.Gateway.{
  SentinelGateway, new_sentinel_gateway, Draws, GateResponse, ExecuteRequest, gated, reply,
}
use sentinel_protocol.Gateway.Gate.{capability_denied, count_risk, respond}
use sentinel_protocol.Gateway.Serve.{gates, executes, after_redeem}
use sentinel_protocol.Gateway.Threads.{
  Pc, idle, gate_entry, execute_entry, entry, advance, done, System, update, arrives, moves, Reach,
  boot, later,
}
use sentinel_protocol.Gateway.Threads.Alone.{alone}
use sentinel_protocol.Gateway.Threads.Shared.{interleaved_chain_is_valid}
use sentinel_protocol.Gateway.Threads.Effects.{draws_of, granted_by, executed_by}
use sentinel_protocol.Gateway.Threads.Tokens.{GrantedIn, interleaved_redeemed_was_granted}
use sentinel_protocol.Gateway.Threads.Apart.{DrawApart}
use sentinel_protocol.Gateway.Threads.Ledger.{Kept}
use sentinel_protocol.Gateway.Threads.Keeping.{
  ledger_of, id_of, interleaved_keeps_ledger, interleaved_execution_has_one_grant,
}
use sentinel_protocol.Gateway.Threads.Facts.{IsAllowed}
use sentinel_protocol.Gateway.Threads.Recorded.{interleaved_allow_is_recorded}
use sentinel_protocol.Gateway.Threads.Every.{asked_of}
use sentinel_protocol.Gateway.Threads.Race.{solo, solo-asked, IsRaced, armed_gate_can_grant}
use sentinel_protocol.Tests.Gateways.{gateway, asks_ls, tok_id, token, ls_is_allowed}
use sentinel_protocol.Tests.Pair.{pair_apart}
use sentinel_protocol.Tests.Fixtures.{ls, pay, world, draws, plain_guard, gateway_config}

abbrev later_draws : Draws
later_draws = record draws { issued_at = 20; token_bytes = 1 ∷ [] }

abbrev executes_it : ExecuteRequest
executes_it = record { token_id = tok_id; prompt = ls }

abbrev gate_begun : System
gate_begun = record {
  gw = gateway;
  threads = update (λ i. idle) 0 (entry draws (gates true (some asks_ls)));
}

abbrev gate_begins : Reach world gateway gate_begun
gate_begins = later boot (arrives 0 draws (gates true (some asks_ls)) refl)

abbrev gate_served :
    (t : System) × Reach world gateway t
    × ((t.gw, t.threads 0) ≡ alone world 7 (gateway, gate_begun.threads 0))
    × ((j : ℕ) → 0 ≢ j → t.threads j ≡ gate_begun.threads j)
gate_served = solo 7 0 gate_begun gate_begins

interleaved_chain_is_valid_example :
    IsChained world.services gate_served.0.gw.proof
    × IsBatched world.services gate_served.0.gw.proof
interleaved_chain_is_valid_example =
    interleaved_chain_is_valid world plain_guard none gateway_config gate_served.0 gate_served.1

-- The gate runs to its end.
gate_end :
    (executor : ExecuteGuard) × (resp : GateResponse) × ((alone world 7
        (gateway, gate_entry draws asks_ls)).0.executor
      ≡ executor)
    × ((alone world 7 (gateway, gate_entry draws asks_ls)).1 ≡ done draws (reply 200 (gated resp)))
    × (resp.token ≡ some token)
    × (executor.tokens ≡ (tok_id, token) ∷ [])
unfolding alone advance is_armed new_sentinel_gateway new_kill_switch capability_denied enforce
    append_audit written count_risk record_low_risk anchored evaluate Evaluate.conclude add_behavior
    keyword_tally add_if has_any contains rule_text to_lower text injection_phrases wallet_phrases
    exec_phrases outbound_phrases bypass_phrases contains_tag respond issue new_token
    generate_token_id hex_encode hex_digit new_execute_guard put
gate_end = (_, _, refl, refl, refl, refl)

-- The gateway then, with a second handler that is asked to execute the token.
abbrev served : System
served = gate_served.0

served_tokens : served.gw.executor.tokens ≡ (tok_id, token) ∷ []
unfolding entry ℕ_discrete
served_tokens =
    ap (λ (q : SentinelGateway × Pc). q.0.executor.tokens) gate_served.2
    ∙ ap (λ eg. eg.tokens) gate_end.2
    ∙ gate_end.5

served_redeems : (redeem served.gw.executor tok_id 20).1 ≡ ok (record token { redeemed = true })
unfolding redeem redeem_found get Text-discrete
served_redeems = rw served_tokens refl

interleaved_redeemed_was_granted_example : GrantedIn served.threads tok_id
interleaved_redeemed_was_granted_example =
    interleaved_redeemed_was_granted world plain_guard none gateway_config served tok_id 20
      (record token { redeemed = true }) gate_served.1 served_redeems

gate_done : served.threads 0 ≡ done draws (reply 200 (gated gate_end.1))
unfolding entry ℕ_discrete
gate_done = ap (λ (q : SentinelGateway × Pc). q.1) gate_served.2 ∙ gate_end.3

gate_asked : asked_of gate_served.1 0 ≡ some (draws, gates true (some asks_ls))
unfolding ℕ_discrete
gate_asked = solo-asked 7 0 gate_begun gate_begins 0

interleaved_allow_is_recorded_example :
    (draws ≡ draws) × IsAllowed world served.gw draws asks_ls gate_end.1 token
interleaved_allow_is_recorded_example =
    interleaved_allow_is_recorded world gateway served 0 200 draws draws asks_ls gate_end.1 token
      gate_served.1 gate_asked gate_done gate_end.4

others_idle : (i : ℕ) → 0 ≢ i → served.threads i ≡ idle
unfolding entry
others_idle i apart =
    gate_served.3 i apart ∙ if_neg (ℕ_discrete 0 i) apart (gate_entry draws asks_ls) idle

abbrev execution_begun : System
execution_begun = record {
  gw = served.gw;
  threads = update served.threads 1 (execute_entry later_draws executes_it);
}

abbrev both_ended : System
both_ended = record {
  gw = (advance world served.gw (execute_entry later_draws executes_it)).0;
  threads =
      update execution_begun.threads 1
        (advance world served.gw (execute_entry later_draws executes_it)).1;
}

both_end : Reach world gateway both_ended
unfolding entry ℕ_discrete
both_end =
    later
      (later gate_served.1
        (arrives 1 later_draws (executes true (some executes_it)) (others_idle 1 (ground arith))))
      (moves 1)

ended_1 : executed_by (both_ended.threads 1) ≡ some tok_id
unfolding advance redeem redeem_found get Text-discrete ℕ_discrete after_redeem
ended_1 = rw served_tokens refl

-- The draws of the two handlers; no other has begun.
draws_0 : draws_of (both_ended.threads 0) ≡ some draws
unfolding ℕ_discrete
draws_0 = ap (λ pc. draws_of pc) gate_done

draws_1 : draws_of (both_ended.threads 1) ≡ some later_draws
unfolding advance redeem redeem_found get Text-discrete ℕ_discrete after_redeem
draws_1 = rw served_tokens refl

draws_other : (i : ℕ) → 0 ≢ i → 1 ≢ i → draws_of (both_ended.threads i) ≡ none
draws_other i not_0 not_1 =
    let p = (advance world served.gw (execute_entry later_draws executes_it)).1 in
    ap (λ pc. draws_of pc)
      (if_neg (ℕ_discrete 1 i) not_1 p (execution_begun.threads i)
        ∙ if_neg (ℕ_discrete 1 i) not_1 (execute_entry later_draws executes_it) (served.threads i)
        ∙ others_idle i not_0)

ids_differ : generate_token_id draws.token_bytes ≢ generate_token_id later_draws.token_bytes
unfolding generate_token_id text hex_encode hex_digit
ids_differ h = ground arith

both_apart : DrawApart both_ended.threads
both_apart i j d e hi hj same =
    pair_apart both_ended.threads draws later_draws (λ d. generate_token_id d.token_bytes) i j d e
      (record { draws_0 = draws_0; draws_1 = draws_1; others = draws_other }) ids_differ hi hj same

interleaved_keeps_ledger_example : Kept (ledger_of both_ended.gw.executor both_ended.threads)
interleaved_keeps_ledger_example =
    interleaved_keeps_ledger world plain_guard none gateway_config both_ended both_end both_apart

interleaved_execution_has_one_grant_example :
    (i : ℕ) × (id_of (granted_by (both_ended.threads i)) ≡ some tok_id)
    × ((k : ℕ) → id_of (granted_by (both_ended.threads k)) ≡ some tok_id → k ≡ i)
    × ((k : ℕ) → executed_by (both_ended.threads k) ≡ some tok_id → k ≡ 1)
    × (redeem both_ended.gw.executor tok_id 30
        ≡ (both_ended.gw.executor, err (text "token already redeemed: " ++ tok_id)))
interleaved_execution_has_one_grant_example =
    interleaved_execution_has_one_grant world plain_guard none gateway_config both_ended 1 tok_id 30
      both_end both_apart ended_1

armed_gate_can_grant_example : IsRaced world gateway draws asks_ls token
armed_gate_can_grant_example =
    armed_gate_can_grant world gateway draws later_draws asks_ls pay token ls_is_allowed
