-- ===== src/Modes/OneClick.antt =====
-- goserver/main.go: runSentinelOneClickMode, with the sender as an argument.
use sentinel_protocol.Base.{
  ℕ, true, not, Option, none, some, List, ◌++◌, if◌then◌else◌, Fallible, ok, err,
}
use sentinel_protocol.Text.{Text, text, is_empty, trim_space}
use sentinel_protocol.Guard.Config.{AuditRecord, SentinelGuard, new_sentinel_guard}
use sentinel_protocol.Guard.Hash.{Outside}
use sentinel_protocol.Guard.Audit.{Enforcement, enforce}
use sentinel_protocol.OpenClaw.{
  OpenClawConfig, OpenClawResponse, Agents, send_task_without_sentinel,
}
use sentinel_protocol.Modes.{SentinelOneClickConfig, resolve_sentinel_config, Outcome, stopped}
use sentinel_protocol.Modes.Output.{SentinelOneClickOutput, verify_rust_cli_hash, one_click_output}

abbrev pub Sender : Type 0
Sender = OpenClawConfig → Text → Fallible OpenClawResponse

-- defaultOpenClawTaskSender
unfoldable pub default_open_claw_task_sender : Agents → Sender
default_open_claw_task_sender ag cfg prompt =
    send_task_without_sentinel ag (record { config = cfg; sentinel = none }) prompt

abbrev submitted :
    SentinelOneClickOutput → Fallible OpenClawResponse → Fallible SentinelOneClickOutput
submitted o (err e) = err (text "openclaw dispatch failed: " ++ e)
submitted o (ok r) = ok (record o {
  open_claw_submitted = true;
  open_claw_status = r.status;
  open_claw_message = r.message;
  open_claw_task_id = r.task_id;
})

-- Once the hash was verified: the task is held back or sent.
unfoldable pub dispatch :
    Sender
    → OpenClawConfig
    → Text
    → Text
    → Text
    → SentinelGuard
    → Enforcement
    → Outcome SentinelOneClickOutput
dispatch sender oc rpc_url action prompt sg e =
    let o = one_click_output rpc_url action prompt sg e in
    if e.eval.should_block
    then record {
      result = ok (record o { open_claw_status = text "blocked_by_policy" });
      log = e.log;
      sent = none;
    }
    else record { result = submitted o (sender oc prompt); log = e.log; sent = some prompt }

abbrev pub verified :
    Sender
    → OpenClawConfig
    → Text
    → Text
    → Text
    → SentinelGuard
    → Enforcement
    → Option Text
    → Outcome SentinelOneClickOutput
verified sender oc rpc_url action prompt sg e (some why) = stopped e.log why
verified sender oc rpc_url action prompt sg e none = dispatch sender oc rpc_url action prompt sg e

abbrev pub enforced :
    Outside
    → Sender
    → OpenClawConfig
    → Text
    → Text
    → Text
    → SentinelGuard
    → Enforcement
    → Option Text
    → Outcome SentinelOneClickOutput
enforced out sender oc rpc_url action prompt sg e (some why) =
    stopped e.log (text "sentinel enforce failed: " ++ why)
enforced out sender oc rpc_url action prompt sg e none =
    verified sender oc rpc_url action prompt sg e (verify_rust_cli_hash out sg.cfg e.audit)

-- The part after the checks of the configuration.
unfoldable pub one_click_guarded :
    Outside
    → Sender
    → OpenClawConfig
    → Text
    → ℕ
    → Text
    → Text
    → List AuditRecord
    → SentinelGuard
    → Outcome SentinelOneClickOutput
one_click_guarded out sender oc rpc_url now action prompt log sg =
    let e = enforce out sg now action prompt log in
    enforced out sender oc rpc_url action prompt sg e e.failure

abbrev pub with_guard :
    Outside
    → Sender
    → OpenClawConfig
    → Text
    → ℕ
    → Text
    → Text
    → List AuditRecord
    → Option SentinelGuard
    → Outcome SentinelOneClickOutput
with_guard out sender oc rpc_url now action prompt log none =
    stopped log (text "sentinel guard is not configured")
with_guard out sender oc rpc_url now action prompt log (some sg) =
    one_click_guarded out sender oc rpc_url now action prompt log sg

abbrev pub with_sender :
    Outside
    → Option Sender
    → OpenClawConfig
    → SentinelOneClickConfig
    → ℕ
    → Text
    → Text
    → List AuditRecord
    → Outcome SentinelOneClickOutput
with_sender out none oc cfg now action prompt log =
    stopped log (text "openclaw sender is not configured")
with_sender out (some sender) oc cfg now action prompt log =
    with_guard out sender oc cfg.sui_rpc_url now action prompt log
      (new_sentinel_guard (some (resolve_sentinel_config cfg.sentinel)) now)

abbrev not_enabled : List AuditRecord → Outcome SentinelOneClickOutput
not_enabled log =
    stopped log (text "openclaw.enabled=true is required in config for one-click mode")

abbrev pub with_open_claw :
    Outside
    → Option Sender
    → Option OpenClawConfig
    → SentinelOneClickConfig
    → ℕ
    → Text
    → Text
    → List AuditRecord
    → Outcome SentinelOneClickOutput
with_open_claw out sender none cfg now action prompt log = not_enabled log
with_open_claw out sender (some oc) cfg now action prompt log =
    if not oc.enabled then not_enabled log else with_sender out sender oc cfg now action prompt log

abbrev pub with_loaded :
    Outside
    → Option Sender
    → Fallible SentinelOneClickConfig
    → ℕ
    → Text
    → Text
    → List AuditRecord
    → Outcome SentinelOneClickOutput
with_loaded out sender (err e) now action prompt log =
    stopped log (text "failed to load one-click config: " ++ e)
with_loaded out sender (ok cfg) now action prompt log =
    with_open_claw out sender cfg.openclaw cfg now action prompt log

-- runSentinelOneClickModeWithSender
unfoldable pub run_sentinel_one_click_mode :
    Outside
    → Option Sender
    → Fallible SentinelOneClickConfig
    → ℕ
    → Text
    → Text
    → List AuditRecord
    → Outcome SentinelOneClickOutput
run_sentinel_one_click_mode out sender loaded now action prompt log =
    if is_empty (trim_space action)
    then stopped log (text "--sentinel-oneclick-action is required in one-click mode")
    else if is_empty (trim_space prompt)
    then stopped log (text "--sentinel-oneclick-prompt is required in one-click mode")
    else with_loaded out sender loaded now (trim_space action) (trim_space prompt) log
