-- ===== src/Gateway.antt =====
-- goserver/sentinel_gateway.go: the HTTP gateway that wires the components. A handler is a function
-- of the gateway, what its decoder found in the request, and what it draws from the clock and from
-- the random sources; one request is served at a time. The records that Enforce wrote are part of
-- the state. The watcher that StartExpiryWatcher starts is the request `tick`.
pub mod Gate
pub mod Serve
pub mod Runs
pub mod Granted
pub mod Safety
pub mod Tokens
pub mod Grants
pub mod Live
pub mod Threads
use sentinel_protocol.Base.{
  ℕ, ◌+◌, Bool, true, false, not, ◌&&◌, ◌||◌, Option, none, some, List, [], ◌∷◌, ◌++◌,
  if◌then◌else◌, ◌==◌, length, decided, ℤ, pos, leb_ℤ, Fallible, ok, err,
}
use sentinel_protocol.Text.{Text, Text-discrete, text, is_empty}
use sentinel_protocol.Guard.Tags.{
  Tag, prompt_injection, policy_bypass, anchor_failure, contains_tag,
}
use sentinel_protocol.Guard.Config.{SentinelGuard, RiskEvaluation, AuditRecord, or_default}
use sentinel_protocol.Guard.Hash.{Outside}
use sentinel_protocol.Guard.Audit.{Enforcement, enforce}
use sentinel_protocol.KillSwitch.{
  KillSwitch, KillSwitchStatus, new_kill_switch, arm, disarm, is_armed, record_high_risk,
  record_low_risk,
}
use sentinel_protocol.Sandbox.{
  CapabilitySandbox, new_capability_sandbox, set_defaults, check, infer_capability, cap_shell,
  cap_fs, cap_browser, cap_wallet, cap_network,
}
use sentinel_protocol.Executor.{
  ExecuteToken, ExecuteGuard, new_execute_guard, issue, redeem, pending_count,
}
use sentinel_protocol.Approval.{
  ApprovalChallenge, ApprovalService, Status, new_approval_service, start_challenge, confirm,
  list_pending,
}
use sentinel_protocol.ProofChain.{
  ProofEntry, MerkleBatch, ProofChain, Services, new_proof_chain, append, get_latest_proof,
  get_latest_batch, verify_chain, len,
}
use sentinel_protocol.OpenClaw.{
  OpenClawClient, OpenClawResponse, Agents, send_task_without_sentinel,
}

-- The zero value stands for a configuration that is nil.
pub record SentinelGatewayConfig : Type 0 where
  pub approval_timeout : ℤ
  pub proof_batch_size : ℤ
  pub walrus_publisher_url : Text
  pub kill_switch_threshold : ℤ
  pub execute_token_ttl : ℤ

pub record SentinelGateway : Type 0 where
  pub guard : SentinelGuard
  pub approval : ApprovalService
  pub proof : ProofChain
  pub kill : KillSwitch
  pub sandbox : CapabilitySandbox
  pub executor : ExecuteGuard
  pub openclaw : Option OpenClawClient
  pub audit_log : List AuditRecord

-- The capabilities of an agent for which there is no override.
unfoldable pub gateway_defaults : List (Text × Bool)
gateway_defaults =
    (cap_shell, true)
    ∷ (cap_fs, true)
    ∷ (cap_browser, true)
    ∷ (cap_wallet, false)
    ∷ (cap_network, true)
    ∷ []

unfoldable pub new_sentinel_gateway :
    SentinelGuard → Option OpenClawClient → SentinelGatewayConfig → SentinelGateway
new_sentinel_gateway guard oc gw_cfg = record {
  guard = guard;
  approval = new_approval_service gw_cfg.approval_timeout;
  proof = new_proof_chain gw_cfg.proof_batch_size gw_cfg.walrus_publisher_url;
  kill = new_kill_switch gw_cfg.kill_switch_threshold;
  sandbox = set_defaults new_capability_sandbox gateway_defaults;
  executor = new_execute_guard gw_cfg.execute_token_ttl;
  openclaw = oc;
  audit_log = [];
}

-- The world outside the gateway.
pub record World : Type 0 where
  pub outside : Outside
  pub services : Services
  pub agents : Agents

-- What one request draws: the readings of the clock, in the order in which they may be taken, an
-- identifier for a challenge and the random bytes of a token.
pub record Draws : Type 0 where
  pub evaluated_at : ℕ
  pub batched_at : ℕ
  pub counted_at : ℕ
  pub started_at : ℕ
  pub decided_at : ℕ
  pub issued_at : ℕ
  pub challenge_id : Text
  pub token_bytes : List ℕ

pub record GateRequest : Type 0 where
  pub action : Text
  pub prompt : Text
  pub agent_id : Text

pub data GateDecision : Type 0 where
  allow require_approval block trigger_kill_switch : GateDecision

-- The source's spelling of a decision.
unfoldable pub gate_decision_text : GateDecision → List ℕ
gate_decision_text allow = text "ALLOW"
gate_decision_text require_approval = text "REQUIRE_APPROVAL"
gate_decision_text block = text "BLOCK"
gate_decision_text trigger_kill_switch = text "TRIGGER_KILL_SWITCH"

pub record GateResponse : Type 0 where
  pub decision : GateDecision
  pub score : ℤ
  pub tags : List Tag
  pub reason : Text
  pub record_hash : Text
  pub token : Option ExecuteToken
  pub challenge_id : Text
  pub proof_index : ℕ
  pub tx_digest : Text
  pub anchor_error : Text

pub record ApprovalStartRequest : Type 0 where
  pub action : Text
  pub prompt : Text
  pub score : ℤ

pub record ApprovalConfirmRequest : Type 0 where
  pub challenge_id : Text
  pub approves : Bool
  pub decided_by : Text

pub record ExecuteRequest : Type 0 where
  pub token_id : Text
  pub prompt : Text

pub record ExecuteResponse : Type 0 where
  pub status : Text
  pub message : Text
  pub openclaw : Option OpenClawResponse

pub record ProofReport : Type 0 where
  pub chain_length : ℕ
  pub chain_valid : Bool
  pub latest_proof : Option ProofEntry
  pub latest_batch : Option MerkleBatch

pub record StatusReport : Type 0 where
  pub kill_switch : KillSwitchStatus
  pub pending_approvals : ℕ
  pub proof_chain_length : ℕ
  pub proof_chain_valid : Bool
  pub pending_tokens : ℕ

-- The bodies that handlers write.
pub data Body : Type 0 where
  plain : Text → Body
  failed : Text → Body
  gated : GateResponse → Body
  started : ApprovalChallenge → Body
  confirmed : ApprovalChallenge → Option ExecuteToken → Body
  executed : ExecuteResponse → Body
  proven : ProofReport → Body
  reported : StatusReport → Body
  switched : KillSwitchStatus → Body
  healthy : Body

pub record Reply : Type 0 where
  pub code : ℕ
  pub body : Body

abbrev pub reply : ℕ → Body → Reply
reply code body = record { code = code; body = body }

abbrev pub bad_body : Reply
bad_body = reply 400 (failed (text "invalid request body"))

abbrev pub method_not_allowed : Reply
method_not_allowed = reply 405 (plain (text "method not allowed"))

-- A response that has a decision and a reason only.
abbrev pub refusal : GateDecision → Text → GateResponse
refusal decision reason = record {
  decision = decision;
  score = pos 0;
  tags = [];
  reason = reason;
  record_hash = [];
  token = none;
  challenge_id = [];
  proof_index = 0;
  tx_digest = [];
  anchor_error = [];
}
