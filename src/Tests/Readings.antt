-- ===== src/Tests/Readings.antt =====
-- A proof request that is counted before a gate appends, and answered after it.
use sentinel_protocol.Base.{◌≡◌, refl, ◌∙◌, ap, true, some, none, ◌≢◌, ℕ, ℕ_discrete, arith}
use sentinel_protocol.ProofChain.{len, verify_chain, get_latest_proof, get_latest_batch}
use sentinel_protocol.Gateway.{SentinelGateway, ProofReport, proven, reply}
use sentinel_protocol.Gateway.Serve.{gates, asks_proof}
use sentinel_protocol.Gateway.Threads.{
  Pc, idle, gate_entry, proof_entry, proof_counted, entry, advance, done, System, update, arrives,
  moves, Reach, boot, later,
}
use sentinel_protocol.Gateway.Threads.Alone.{alone}
use sentinel_protocol.Gateway.Threads.Race.{solo}
use sentinel_protocol.Gateway.Threads.Readings.{Agrees, reading_in}
use sentinel_protocol.Gateway.Threads.Reports.{interleaved_reports_agree}
use sentinel_protocol.Tests.Gateways.{gateway, asks_ls}
use sentinel_protocol.Tests.Fixtures.{world, draws, plain_guard, gateway_config}

abbrev counted : System
counted = record {
  gw = gateway;
  threads =
      update (update (λ i. idle) 1 (proof_entry draws)) 1 (proof_counted draws (len gateway.proof));
}

abbrev gate_among : System
gate_among = record { gw = gateway; threads = update counted.threads 0 (gate_entry draws asks_ls) }

gate_begins : Reach world gateway gate_among
unfolding entry advance ℕ_discrete
gate_begins =
    later (later (later boot (arrives 1 draws (asks_proof true) refl)) (moves 1))
      (arrives 0 draws (gates true (some asks_ls)) refl)

abbrev appended :
    (t : System) × Reach world gateway t
    × ((t.gw, t.threads 0) ≡ alone world 7 (gateway, gate_among.threads 0))
    × ((j : ℕ) → 0 ≢ j → t.threads j ≡ gate_among.threads j)
appended = solo 7 0 gate_among gate_begins

abbrev answered :
    (t : System) × Reach world gateway t
    × ((t.gw, t.threads 1) ≡ alone world 3 (appended.0.gw, appended.0.threads 1))
    × ((j : ℕ) → 1 ≢ j → t.threads j ≡ appended.0.threads j)
answered = solo 3 1 appended.0 appended.1

abbrev told : ProofReport
told = record {
  chain_length = len gateway.proof;
  chain_valid = verify_chain world.services appended.0.gw.proof;
  latest_proof = get_latest_proof appended.0.gw.proof;
  latest_batch = get_latest_batch appended.0.gw.proof;
}

is_told : answered.0.threads 1 ≡ done draws (reply 200 (proven told))
unfolding alone advance ℕ_discrete
is_told =
    ap (λ (q : SentinelGateway × Pc). q.1) answered.2
    ∙ ap (λ p. (alone world 3 (appended.0.gw, p)).1) (appended.3 1 (ground arith))

interleaved_reports_agree_example : Agrees answered.0.gw (reading_in (proven told))
interleaved_reports_agree_example =
    interleaved_reports_agree world plain_guard none gateway_config answered.0 1 draws
      (reply 200 (proven told)) answered.1 is_told
