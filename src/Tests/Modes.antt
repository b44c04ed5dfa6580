-- ===== src/Tests/Modes.antt =====
-- The run modes and the benchmark, at concrete inputs.
use sentinel_protocol.Base.{
  ◌≡◌, refl, true, false, none, some, List, [], ◌∷◌, ok, err, length, ◌≤◌, ◌↔◌, arith,
}
use sentinel_protocol.Text.{is_empty, trim_space}
use sentinel_protocol.Float32
use sentinel_protocol.Behavior.{running}
use sentinel_protocol.PolicyGate.{check_command, decide_anomaly, new_policy_gate}
use sentinel_protocol.Guard.Config.{new_sentinel_guard, with_defaults, or_default}
use sentinel_protocol.Guard.Tags.{contains_tag, Tag-discrete}
use sentinel_protocol.Guard.Evaluate
use sentinel_protocol.Guard.Evaluate.{
  evaluate, add_behavior, behavior_points, add_action, keyword_tally, add_if, rule_text,
  injection_phrases, wallet_phrases, exec_phrases, outbound_phrases, bypass_phrases,
}
use sentinel_protocol.Guard.Hash.{
  Outside, hash_via_rust, run_or_fail, compute_hash, sign_hash, signed_record, materialize,
}
use sentinel_protocol.Guard.Audit.{enforce, append_audit, written, anchored}
use sentinel_protocol.Modes.{SentinelOneClickConfig, resolve_sentinel_config}
use sentinel_protocol.Modes.OneClick.{
  Sender, run_sentinel_one_click_mode, one_click_guarded, dispatch,
}
use sentinel_protocol.Modes.Output.{verify_rust_cli_hash, compare_hash}
use sentinel_protocol.Modes.Cleared.{SentFor}
use sentinel_protocol.Benchmark.{BenchmarkCase, benchmark_counts, report_of}
use sentinel_protocol.Benchmark.Rates.{benchmark_rates, AllAsExpected}
use sentinel_protocol.Float64.Ratios.{IsRatio, IsOne}
use sentinel_protocol.Modes.Files.{Files, load_sentinel_one_click_config}
use sentinel_protocol.Modes.Main.{Flags, given, main}
use sentinel_protocol.Modes.Main.Sent.{sent_of, main_sent_was_cleared}
use sentinel_protocol.Tests.Fixtures.{ls, pay, agent, empty, config, outside, agents, plain_guard}

-- Commands answer with a hash.
abbrev hashing : Outside
hashing = record outside { run = λ args. (agent, none); decode_hash = λ s. ok s }

abbrev one_click_config : SentinelOneClickConfig
one_click_config = record {
  sui_rpc_url = empty;
  openclaw = some (record { enabled = true; server_url = empty; agent_id = empty });
  sentinel = some config;
}

abbrev sender : Sender
sender oc prompt = ok (record { status = ls; message = ls; task_id = ls })

-- The files of a run: the configuration decodes to the one above.
abbrev files : Files
files = record {
  read_file = λ path. ok path;
  mkdir_all = λ path. none;
  write_file = λ path bytes. none;
  dir = λ path. empty;
  decode_sentinel = λ bytes. err bytes;
  decode_one_click = λ bytes. ok one_click_config;
  decode_cases = λ bytes. err bytes;
  encode_report = λ report. ok empty;
}

abbrev one_click_flags : Flags
one_click_flags = record {
  config_path = pay;
  walrus_url = empty;
  sentinel_benchmark = empty;
  sentinel_benchmark_out = empty;
  sentinel_eval_action = empty;
  sentinel_eval_prompt = empty;
  sentinel_one_click_action = ls;
  sentinel_one_click_prompt = ls;
  sentinel_proxy = true;
}

main_sends_ls : sent_of (main hashing agents files one_click_flags 1 []) ≡ some ls
unfolding running main load_sentinel_one_click_config run_sentinel_one_click_mode
    resolve_sentinel_config new_sentinel_guard with_defaults or_default one_click_guarded enforce
    evaluate Evaluate.conclude add_behavior behavior_points add_action keyword_tally add_if
    rule_text injection_phrases wallet_phrases exec_phrases outbound_phrases bypass_phrases
    contains_tag check_command decide_anomaly new_policy_gate materialize compute_hash hash_via_rust
    run_or_fail sign_hash signed_record append_audit written anchored dispatch verify_rust_cli_hash
    compare_hash Evaluate.min_int Float32.to_int Tag-discrete
main_sends_ls = refl

main_sent_was_cleared_example :
    (given empty empty ≡ false)
    × (is_empty (trim_space ls) ≡ false)
    × (is_empty (trim_space ls) ≡ false)
    × (ls ≡ trim_space ls)
    × SentFor hashing
        (load_sentinel_one_click_config files pay)
        1
        (trim_space ls)
        (trim_space ls)
        []
main_sent_was_cleared_example =
    main_sent_was_cleared hashing agents files one_click_flags 1 [] ls main_sends_ls

abbrev cases : List BenchmarkCase
cases =
    record { name = ls; action = ls; prompt = ls; expect_block = false }
    ∷ record { name = pay; action = pay; prompt = ls; expect_block = true }
    ∷ []

benchmark_rates_example :
    let r = report_of (benchmark_counts plain_guard cases) in
    (IsRatio r.accuracy × IsRatio r.precision × IsRatio r.recall × IsRatio r.block_rate)
    × (IsOne r.accuracy ↔ ((1 ≤ length cases) × AllAsExpected plain_guard cases))
benchmark_rates_example = benchmark_rates plain_guard cases (omega arith)
