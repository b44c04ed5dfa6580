-- ===== src/Tests/Proxy.antt =====
-- The gateway that the proxy mode serves, at a concrete configuration and one request.
use sentinel_protocol.Base.{
  ℕ, ◌+◌, ◌≡◌, refl, ap, ◌∙◌, ◌≢◌, true, false, none, some, ok, ℕ_discrete,
}
use sentinel_protocol.Text.{text, hex_encode, hex_digit}
use sentinel_protocol.Float32
use sentinel_protocol.Behavior.{running}
use sentinel_protocol.PolicyGate.{check_command, decide_anomaly, new_policy_gate}
use sentinel_protocol.Guard.Config.{SentinelGuard, new_sentinel_guard, with_defaults, or_default}
use sentinel_protocol.Guard.Tags.{contains_tag, Tag-discrete}
use sentinel_protocol.Guard.Evaluate
use sentinel_protocol.Guard.Evaluate.{
  evaluate, add_behavior, behavior_points, add_action, keyword_tally, add_if, rule_text,
  injection_phrases, wallet_phrases, exec_phrases, outbound_phrases, bypass_phrases,
}
use sentinel_protocol.Guard.Audit.{enforce, append_audit, written, anchored}
use sentinel_protocol.KillSwitch.{new_kill_switch, is_armed, record_low_risk}
use sentinel_protocol.Executor.{
  ExecuteToken, new_execute_guard, issue, new_token, generate_token_id,
}
use sentinel_protocol.Gateway.{SentinelGateway, new_sentinel_gateway}
use sentinel_protocol.Gateway.Gate.{capability_denied, count_risk, respond}
use sentinel_protocol.Gateway.Serve.{gates}
use sentinel_protocol.Gateway.Threads.{
  Pc, idle, entry, advance, System, update, arrives, Reach, boot, later,
}
use sentinel_protocol.Gateway.Threads.Alone.{alone}
use sentinel_protocol.Gateway.Threads.Effects.{granted_by}
use sentinel_protocol.Gateway.Threads.Race.{solo}
use sentinel_protocol.Modes.{SentinelOneClickConfig, resolve_sentinel_config}
use sentinel_protocol.Modes.Proxy.{proxy_config, proxy_client, run_sentinel_proxy_mode}
use sentinel_protocol.Modes.Proxy.Limits.{proxy_token_expires}
use sentinel_protocol.Tests.Fixtures.{ls, pay, empty, config, world, draws}
use sentinel_protocol.Tests.Gateways.{asks_ls, tok_id}

abbrev loaded : SentinelOneClickConfig
loaded = record { sui_rpc_url = empty; openclaw = none; sentinel = some config }

abbrev guard : SentinelGuard
guard = record {
  cfg = with_defaults config;
  policy_gate = some (new_policy_gate (text "sentinel-agent") 1);
  anchor_fn = none;
}

abbrev gateway : SentinelGateway
gateway = new_sentinel_gateway guard none (proxy_config pay)

is_served : run_sentinel_proxy_mode (ok loaded) 1 pay ≡ ok gateway
unfolding run_sentinel_proxy_mode new_sentinel_guard resolve_sentinel_config proxy_client
is_served = refl

abbrev begun : System
begun = record {
  gw = gateway;
  threads = update (λ i. idle) 0 (entry draws (gates true (some asks_ls)));
}

abbrev ended :
    (t : System) × Reach world gateway t
    × ((t.gw, t.threads 0) ≡ alone world 7 (gateway, begun.threads 0))
    × ((j : ℕ) → 0 ≢ j → t.threads j ≡ begun.threads j)
ended = solo 7 0 begun (later boot (arrives 0 draws (gates true (some asks_ls)) refl))

abbrev token : ExecuteToken
token = record {
  id = tok_id;
  action = ls;
  issued_at = 6;
  expires_at = 30000000006;
  redeemed = false;
}

takes_token : granted_by (ended.0.threads 0) ≡ some token
unfolding running alone advance entry ℕ_discrete is_armed new_sentinel_gateway new_kill_switch
    capability_denied with_defaults or_default new_policy_gate check_command decide_anomaly enforce
    append_audit written count_risk record_low_risk anchored evaluate Evaluate.conclude add_behavior
    behavior_points add_action keyword_tally add_if rule_text injection_phrases wallet_phrases
    exec_phrases outbound_phrases bypass_phrases contains_tag Evaluate.min_int Float32.to_int
    Tag-discrete respond issue new_token generate_token_id hex_encode hex_digit new_execute_guard
takes_token = ap (λ (q : SentinelGateway × Pc). granted_by q.1) ended.2 ∙ refl

proxy_token_expires_example : token.expires_at ≡ token.issued_at + 30000000000
proxy_token_expires_example =
    proxy_token_expires world (ok loaded) 1 pay gateway ended.0 0 token is_served ended.1
      takes_token
