-- ===== src/Modes/Files.antt =====
-- goserver/config.go: the loading of the configuration. The file system, encoding/json and
-- filepath.Dir are parameters.
use sentinel_protocol.Base.{Option, List, Fallible, ok, err}
use sentinel_protocol.Text.{Text}
use sentinel_protocol.Guard.Config.{SentinelConfig}
use sentinel_protocol.Benchmark.{BenchmarkCase, BenchmarkReport}
use sentinel_protocol.Modes.{SentinelOneClickConfig}

-- os.ReadFile, os.MkdirAll and os.WriteFile, with the error if there is one; json.Unmarshal into the
-- types that the modes ask for; json.MarshalIndent of a report.
pub record Files : Type 0 where
  pub read_file : Text → Fallible Text
  pub mkdir_all : Text → Option Text
  pub write_file : Text → Text → Option Text
  pub dir : Text → Text
  pub decode_sentinel : Text → Fallible (Option SentinelConfig)
  pub decode_one_click : Text → Fallible SentinelOneClickConfig
  pub decode_cases : Text → Fallible (List BenchmarkCase)
  pub encode_report : BenchmarkReport → Fallible Text

-- What is decoded of a file that was read.
abbrev pub decoded : {A : Type 0} → (Text → Fallible A) → Fallible Text → Fallible A
decoded decode (err e) = err e
decoded decode (ok bytes) = decode bytes

unfoldable pub load_sentinel_config_only : Files → Text → Fallible (Option SentinelConfig)
load_sentinel_config_only fs path = decoded fs.decode_sentinel (fs.read_file path)

unfoldable pub load_sentinel_one_click_config : Files → Text → Fallible SentinelOneClickConfig
load_sentinel_one_click_config fs path = decoded fs.decode_one_click (fs.read_file path)
