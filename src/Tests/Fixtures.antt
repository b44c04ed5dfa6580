-- ===== src/Tests/Fixtures.antt =====
-- The inputs of the tests. Texts are written as bytes.
use sentinel_protocol.Base.{
  ℕ, zero, suc, ◌%◌, true, false, none, some, [], ◌∷◌, pos, length, ok, err,
}
use sentinel_protocol.Text.{Text}
use sentinel_protocol.Guard.Config.{SentinelConfig, SentinelGuard, AuditRecord, allowed}
use sentinel_protocol.Guard.Hash.{Outside}
use sentinel_protocol.ProofChain.{Services}
use sentinel_protocol.OpenClaw.{Agents}
use sentinel_protocol.Gateway.{SentinelGatewayConfig, World, Draws}

-- "ls", "pay", "ab", and the empty text.
abbrev pub ls : Text
ls = 108 ∷ 115 ∷ []

abbrev pub pay : Text
pay = 112 ∷ 97 ∷ 121 ∷ []

abbrev pub agent : Text
agent = 97 ∷ 98 ∷ []

abbrev pub empty : Text
empty = []

abbrev pub zeros : ℕ → Text
zeros zero = []
zeros (suc n) = 0 ∷ zeros n

-- A stand-in for SHA-256: 32 bytes, the first of them the length of the text.
abbrev pub digest : Text → Text
digest s = length s % 256 ∷ zeros 31

abbrev pub outside : Outside
outside = record {
  run = λ args. (empty, some agent);
  decode_hash = λ s. err s;
  decode_signature = λ s. err s;
  decode_digest_v2 = λ s. err s;
  decode_digest_v1 = λ s. err s;
  sha256 = digest;
  format_time = λ t. empty;
  write_audit = λ path rec. none;
}

abbrev pub services : Services
services = record {
  sha256 = digest;
  post = λ url batch. err url;
  decode_newly_created = λ s. err s;
  decode_already_certified = λ s. err s;
  decode_flat = λ s. err s;
}

abbrev pub agents : Agents
agents = record { run_agent = λ id prompt. ok prompt; post_task = λ url prompt. err url }

abbrev pub world : World
world = record { outside = outside; services = services; agents = agents }

abbrev pub config : SentinelConfig
config = record {
  enabled = true;
  risk_threshold = pos 70;
  audit_log_path = empty;
  anchor_enabled = false;
  anchor_fail_closed = true;
  anchor_package = empty;
  anchor_module = empty;
  anchor_func = empty;
  anchor_registry = empty;
  hash_cli_path = empty;
  sign_cli_path = empty;
  sign_priv_key = empty;
}

-- A guard without the behavioural gate.
abbrev pub plain_guard : SentinelGuard
plain_guard = record { cfg = config; policy_gate = none; anchor_fn = none }

-- A guard whose anchor refuses every record, under the fail-closed policy.
abbrev pub closed_guard : SentinelGuard
closed_guard = record {
  cfg = record config { anchor_enabled = true };
  policy_gate = none;
  anchor_fn = some (λ rec. err empty);
}

abbrev pub gateway_config : SentinelGatewayConfig
gateway_config = record {
  approval_timeout = pos 100;
  proof_batch_size = pos 2;
  walrus_publisher_url = empty;
  kill_switch_threshold = pos 3;
  execute_token_ttl = pos 50;
}

abbrev pub draws : Draws
draws = record {
  evaluated_at = 1;
  batched_at = 2;
  counted_at = 3;
  started_at = 4;
  decided_at = 5;
  issued_at = 6;
  challenge_id = pay;
  token_bytes = 171 ∷ 205 ∷ [];
}

abbrev pub record_of : Text → AuditRecord
record_of h = record {
  timestamp = 1;
  action = ls;
  prompt = ls;
  score = pos 0;
  tags = [];
  decision = allowed;
  reason = empty;
  record_hash = h;
  signature = empty;
  public_key = empty;
  tx_digest = empty;
  anchor_error = empty;
}
