-- ===== src/Modes/Main/Sent.antt =====
-- Of all the modes, only the one-click mode sends a prompt to OpenClaw by itself, and only what it
-- cleared.
use sentinel_protocol.Base.{
  ℕ, ◌≡◌, refl, false, Option, none, some, List, if_both, arith, Fallible, ok, err,
}
use sentinel_protocol.Text.{Text, is_empty, trim_space}
use sentinel_protocol.Guard.Config.{SentinelConfig, SentinelGuard, AuditRecord, new_sentinel_guard}
use sentinel_protocol.Guard.Hash.{Outside}
use sentinel_protocol.Guard.Audit.{Enforcement, enforce}
use sentinel_protocol.OpenClaw.{Agents}
use sentinel_protocol.Benchmark.{BenchmarkReport, run_sentinel_benchmark_with_report}
use sentinel_protocol.Modes.{resolve_sentinel_config}
use sentinel_protocol.Modes.Eval.{run_sentinel_eval_mode, eval_loaded, eval_guarded, eval_enforced}
use sentinel_protocol.Modes.OneClick.{default_open_claw_task_sender, run_sentinel_one_click_mode}
use sentinel_protocol.Modes.Cleared.{SentFor, sent_was_cleared}
use sentinel_protocol.Modes.Files.{Files, load_sentinel_config_only, load_sentinel_one_click_config}
use sentinel_protocol.Modes.Report.{Written, write_benchmark_report}
use sentinel_protocol.Modes.Main.{
  Flags, Did, evaluates, one_clicks, given, benchmark_loaded, benchmark_result, report_written,
  main,
}

-- The prompt that a run sent to OpenClaw.
abbrev pub sent_of : Did → Option Text
sent_of (evaluates o) = o.sent
sent_of (one_clicks o) = o.sent
sent_of _ = none

eval_guarded-quiet :
    (out : Outside) (now : ℕ) (action prompt : Text) (log : List AuditRecord)
    (sg : Option SentinelGuard)
    → (eval_guarded out now action prompt log sg).sent ≡ none
eval_guarded-quiet out now action prompt log none = refl
eval_guarded-quiet out now action prompt log (some sg) =
    let e : Enforcement = enforce out sg now action prompt log in settled e.failure
  where
    settled :
        (failure : Option Text)
        → (eval_enforced action prompt sg (enforce out sg now action prompt log) failure).sent
          ≡ none
    settled none = refl
    settled (some why) = refl

eval_loaded-quiet :
    (out : Outside) (now : ℕ) (action prompt : Text) (log : List AuditRecord)
    (loaded : Fallible (Option SentinelConfig))
    → (eval_loaded out now action prompt log loaded).sent ≡ none
eval_loaded-quiet out now action prompt log (err e) = refl
eval_loaded-quiet out now action prompt log (ok cfg) =
    eval_guarded-quiet out now action prompt log
      (new_sentinel_guard (some (resolve_sentinel_config cfg)) now)

eval_mode-quiet :
    (out : Outside) (now : ℕ) (action prompt : Text) (log : List AuditRecord)
    (loaded : Fallible (Option SentinelConfig))
    → (run_sentinel_eval_mode out loaded now action prompt log).sent ≡ none
unfolding run_sentinel_eval_mode
eval_mode-quiet out now action prompt log loaded =
    ground (arith, eval_loaded-quiet out now (trim_space action) (trim_space prompt) log loaded)

report_written-quiet :
    (result : Fallible BenchmarkReport) (written : Written)
    → sent_of (report_written result written) ≡ none
report_written-quiet result (none, ops) = refl
report_written-quiet result (some e, ops) = refl

benchmark_result-quiet :
    (fs : Files) (path : Text) (result : Fallible BenchmarkReport)
    → sent_of (benchmark_result fs path result) ≡ none
benchmark_result-quiet fs path (err e) = refl
benchmark_result-quiet fs path (ok report) =
    if_both (λ did. sent_of did ≡ none) (is_empty (trim_space path)) _ _ refl
      (report_written-quiet (ok report) (write_benchmark_report fs path (some report)))

benchmark_loaded-quiet :
    (fs : Files) (flags : Flags) (now : ℕ) (loaded : Fallible (Option SentinelConfig))
    → sent_of (benchmark_loaded fs flags now loaded) ≡ none
benchmark_loaded-quiet fs flags now (err e) = refl
benchmark_loaded-quiet fs flags now (ok cfg) =
    benchmark_result-quiet fs flags.sentinel_benchmark_out (
      run_sentinel_benchmark_with_report fs.read_file fs.decode_cases flags.sentinel_benchmark
        (new_sentinel_guard (some (resolve_sentinel_config cfg)) now))

-- main sends a prompt to OpenClaw by itself only in the one-click mode, which the flags of the
-- evaluation mode take precedence over, and only if the prompt and the action are not blank, the
-- loaded configuration enables OpenClaw, the guard's evaluation does not block, its record was written
-- to the log, and the command line recomputes the hash of the record; and what it sends is the trimmed
-- prompt that was evaluated.
pub main_sent_was_cleared :
    (out : Outside) (ag : Agents) (fs : Files) (flags : Flags) (now : ℕ) (log : List AuditRecord)
    (p : Text)
    → sent_of (main out ag fs flags now log) ≡ some p
    → (given flags.sentinel_eval_action flags.sentinel_eval_prompt ≡ false)
      × (is_empty (trim_space flags.sentinel_one_click_action) ≡ false)
      × (is_empty (trim_space flags.sentinel_one_click_prompt) ≡ false)
      × (p ≡ trim_space flags.sentinel_one_click_prompt)
      × SentFor out
          (load_sentinel_one_click_config fs flags.config_path)
          now
          (trim_space flags.sentinel_one_click_action)
          (trim_space flags.sentinel_one_click_prompt)
          log
unfolding main
main_sent_was_cleared out ag fs flags now log p h =
    let loaded = load_sentinel_config_only fs flags.config_path in
    let one_click = load_sentinel_one_click_config fs flags.config_path in
    let action = flags.sentinel_one_click_action in
    let prompt = flags.sentinel_one_click_prompt in
    let quiet =
      eval_mode-quiet out now flags.sentinel_eval_action flags.sentinel_eval_prompt log loaded in
    let none_sent = benchmark_loaded-quiet fs flags now loaded in
    let (no_eval, sent) : (given flags.sentinel_eval_action flags.sentinel_eval_prompt ≡ false)
        × ((run_sentinel_one_click_mode out (some (default_open_claw_task_sender ag)) one_click now
              action prompt log).sent
            ≡ some p) =
      ground (arith, quiet, none_sent, h) in
    let (acts, prompts, same, cleared) =
      sent_was_cleared out (some (default_open_claw_task_sender ag)) one_click now action prompt log
        p sent in
    (no_eval, acts, prompts, same, cleared)
