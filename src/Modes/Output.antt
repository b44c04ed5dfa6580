-- ===== src/Modes/Output.antt =====
-- goserver/main.go: what runSentinelOneClickModeWithSender prints, and the check of the hash before.
use sentinel_protocol.Base.{
  ℕ, Bool, true, false, ◌||◌, Option, none, some, List, [], ◌++◌, if◌then◌else◌, decided, ℤ,
  Fallible, ok, err,
}
use sentinel_protocol.Text.{Text, Text-discrete, text, is_empty, to_lower, contains}
use sentinel_protocol.Guard.Tags.{Tag}
use sentinel_protocol.Guard.Config.{SentinelConfig, RecordDecision, AuditRecord, SentinelGuard}
use sentinel_protocol.Guard.Hash.{Outside, hash_via_rust}
use sentinel_protocol.Guard.Audit.{Enforcement}

pub record SentinelOneClickOutput : Type 0 where
  pub action : Text
  pub prompt : Text
  pub score : ℤ
  pub tags : List Tag
  pub decision : RecordDecision
  pub reason : Text
  pub record_hash : Text
  pub audit_log_path : Text
  pub rust_cli_hash_verified : Bool
  pub tx_digest : Text
  pub anchor_error : Text
  pub onchain_query_cmd : Text
  pub onchain_explorer_url : Text
  pub open_claw_submitted : Bool
  pub open_claw_status : Text
  pub open_claw_message : Text
  pub open_claw_task_id : Text

unfoldable pub build_sui_explorer_url : Text → Text → List ℕ
build_sui_explorer_url rpc_url tx_digest =
    let lower = to_lower rpc_url in
    let url = λ (network : Text).
      text "https://suiexplorer.com/txblock/" ++ (tx_digest ++ (text "?network=" ++ network)) in
    if is_empty tx_digest
    then []
    else if contains lower (text "mainnet")
    then url (text "mainnet")
    else if contains lower (text "devnet")
    then url (text "devnet")
    else if contains lower (text "localhost") || contains lower (text "127.0.0.1")
    then []
    else url (text "testnet")

-- The error, if there is one, when the recomputed hash is compared with that of the record.
unfoldable pub compare_hash : Text → Fallible Text → Option Text
compare_hash expected (err e) = some (
    text "rustcli hash verification failed: "
    ++ (e ++ text " (build rustcli first: cargo build --release in rustcli/)"))
compare_hash expected (ok h) =
    if decided (Text-discrete h expected)
    then none
    else some (text "rustcli hash mismatch: expected " ++ (expected ++ (text ", got " ++ h)))

-- verifyRustCLIHash
unfoldable pub verify_rust_cli_hash : Outside → SentinelConfig → AuditRecord → Option Text
verify_rust_cli_hash out cfg rec = compare_hash rec.record_hash (hash_via_rust out cfg rec)

-- The output before the task is sent or held back.
unfoldable pub one_click_output :
    Text → Text → Text → SentinelGuard → Enforcement → SentinelOneClickOutput
one_click_output rpc_url action prompt sg e =
    let tx = e.audit.tx_digest in
    record {
      action = action;
      prompt = prompt;
      score = e.eval.score;
      tags = e.eval.tags;
      decision = e.audit.decision;
      reason = e.eval.reason;
      record_hash = e.audit.record_hash;
      audit_log_path = sg.cfg.audit_log_path;
      rust_cli_hash_verified = true;
      tx_digest = tx;
      anchor_error = e.audit.anchor_error;
      onchain_query_cmd =
          if is_empty tx then [] else text "sui client tx-block " ++ (tx ++ text " --json");
      onchain_explorer_url = if is_empty tx then [] else build_sui_explorer_url rpc_url tx;
      open_claw_submitted = false;
      open_claw_status = [];
      open_claw_message = [];
      open_claw_task_id = [];
    }
