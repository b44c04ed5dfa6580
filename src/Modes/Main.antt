-- ===== src/Modes/Main.antt =====
-- goserver/main.go: main, which chooses a mode by its flags. Parsing the flags and printing are left
-- out; a call of log.Fatalf is the error with its message.
pub mod Sent
use sentinel_protocol.Base.{
  ℕ, Bool, true, false, not, ◌||◌, Option, none, some, List, [], ◌++◌, if◌then◌else◌, Fallible, ok,
  err,
}
use sentinel_protocol.Text.{Text, text, is_empty, trim_space}
use sentinel_protocol.Guard.Config.{SentinelConfig, AuditRecord, new_sentinel_guard}
use sentinel_protocol.Guard.Hash.{Outside}
use sentinel_protocol.OpenClaw.{Agents}
use sentinel_protocol.Gateway.{SentinelGateway}
use sentinel_protocol.Benchmark.{BenchmarkReport, run_sentinel_benchmark_with_report}
use sentinel_protocol.Modes.{resolve_sentinel_config, Outcome, fatal}
use sentinel_protocol.Modes.Eval.{SentinelEvalOutput, run_sentinel_eval_mode}
use sentinel_protocol.Modes.OneClick.{
  Sender, default_open_claw_task_sender, run_sentinel_one_click_mode,
}
use sentinel_protocol.Modes.Output.{SentinelOneClickOutput}
use sentinel_protocol.Modes.Files.{Files, load_sentinel_config_only, load_sentinel_one_click_config}
use sentinel_protocol.Modes.Report.{FileOp, Written, write_benchmark_report}
use sentinel_protocol.Modes.Proxy.{run_sentinel_proxy_mode}

pub record Flags : Type 0 where
  pub config_path : Text
  pub walrus_url : Text
  pub sentinel_benchmark : Text
  pub sentinel_benchmark_out : Text
  pub sentinel_eval_action : Text
  pub sentinel_eval_prompt : Text
  pub sentinel_one_click_action : Text
  pub sentinel_one_click_prompt : Text
  pub sentinel_proxy : Bool

-- What the program did: the outcome of its mode, or the usage text.
pub data Did : Type 0 where
  evaluates : Outcome SentinelEvalOutput → Did
  one_clicks : Outcome SentinelOneClickOutput → Did
  proxies : Fallible SentinelGateway → Did
  benchmarks : Fallible BenchmarkReport → List FileOp → Did
  prints_usage : Did

-- The report is written to a file if a path that is not blank is given.
abbrev pub report_written : Fallible BenchmarkReport → Written → Did
report_written result (none, ops) = benchmarks result ops
report_written result (some e, ops) =
    benchmarks (err (text "Failed to write benchmark report: " ++ e)) ops

abbrev pub benchmark_result : Files → Text → Fallible BenchmarkReport → Did
benchmark_result fs out_path (err e) = benchmarks (err (text "Sentinel benchmark failed: " ++ e)) []
benchmark_result fs out_path (ok report) =
    if is_empty (trim_space out_path)
    then benchmarks (ok report) []
    else report_written (ok report) (write_benchmark_report fs out_path (some report))

abbrev pub benchmark_loaded : Files → Flags → ℕ → Fallible (Option SentinelConfig) → Did
benchmark_loaded fs flags now (err e) =
    benchmarks (err (text "Failed to load sentinel config for benchmark: " ++ e)) []
benchmark_loaded fs flags now (ok cfg) = benchmark_result fs flags.sentinel_benchmark_out (
    run_sentinel_benchmark_with_report fs.read_file fs.decode_cases flags.sentinel_benchmark
      (new_sentinel_guard (some (resolve_sentinel_config cfg)) now))

abbrev pub given : Text → Text → Bool
given action prompt = not (is_empty action) || not (is_empty prompt)

unfoldable pub main : Outside → Agents → Files → Flags → ℕ → List AuditRecord → Did
main out ag fs flags now log =
    if given flags.sentinel_eval_action flags.sentinel_eval_prompt
    then evaluates (
        fatal (text "Sentinel eval failed: ") (
          run_sentinel_eval_mode out (load_sentinel_config_only fs flags.config_path) now
            flags.sentinel_eval_action flags.sentinel_eval_prompt log))
    else if given flags.sentinel_one_click_action flags.sentinel_one_click_prompt
    then one_clicks (
        fatal (text "Sentinel one-click failed: ") (
          run_sentinel_one_click_mode out (some (default_open_claw_task_sender ag))
            (load_sentinel_one_click_config fs flags.config_path) now
            flags.sentinel_one_click_action flags.sentinel_one_click_prompt log))
    else if flags.sentinel_proxy
    then proxies (
        run_sentinel_proxy_mode (load_sentinel_one_click_config fs flags.config_path) now
          flags.walrus_url)
    else if not (is_empty flags.sentinel_benchmark)
    then benchmark_loaded fs flags now (load_sentinel_config_only fs flags.config_path)
    else prints_usage
