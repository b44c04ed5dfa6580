-- ===== src/Modes/Proxy.antt =====
-- goserver/main.go: runSentinelProxyMode, up to the gateway that its server serves. The log lines, the
-- server's loop and its end on a signal are left out.
pub mod Limits
use sentinel_protocol.Base.{
  ℕ, Bool, true, false, Option, none, some, ◌++◌, if◌then◌else◌, ℤ, pos, Fallible, ok, err,
}
use sentinel_protocol.Text.{Text, text}
use sentinel_protocol.Guard.Config.{SentinelGuard, new_sentinel_guard}
use sentinel_protocol.OpenClaw.{OpenClawConfig, OpenClawClient}
use sentinel_protocol.Gateway.{SentinelGateway, SentinelGatewayConfig, new_sentinel_gateway}
use sentinel_protocol.Modes.{SentinelOneClickConfig, resolve_sentinel_config}

-- Five minutes for a challenge, ten entries in a batch, three high-risk evaluations in a row, and
-- thirty seconds for a token; durations are nanoseconds.
abbrev pub proxy_config : Text → SentinelGatewayConfig
proxy_config walrus_url = record {
  approval_timeout = pos 300000000000;
  proof_batch_size = pos 10;
  walrus_publisher_url = walrus_url;
  kill_switch_threshold = pos 3;
  execute_token_ttl = pos 30000000000;
}

-- NewOpenClawClient, only if the configuration has it enabled.
unfoldable pub proxy_client : SentinelGuard → Option OpenClawConfig → Option OpenClawClient
proxy_client guard none = none
proxy_client guard (some oc) =
    if oc.enabled then some (record { config = oc; sentinel = some guard }) else none

abbrev pub with_proxy_guard :
    SentinelOneClickConfig → Text → Option SentinelGuard → Fallible SentinelGateway
with_proxy_guard cfg walrus_url none = err (text "Sentinel guard is not configured")
with_proxy_guard cfg walrus_url (some guard) =
    ok (new_sentinel_gateway guard (proxy_client guard cfg.openclaw) (proxy_config walrus_url))

-- The gateway that is served, or the message with which the program ends.
unfoldable pub run_sentinel_proxy_mode :
    Fallible SentinelOneClickConfig → ℕ → Text → Fallible SentinelGateway
run_sentinel_proxy_mode (err e) now walrus_url = err (text "Failed to load config: " ++ e)
run_sentinel_proxy_mode (ok cfg) now walrus_url =
    with_proxy_guard cfg walrus_url
      (new_sentinel_guard (some (resolve_sentinel_config cfg.sentinel)) now)
