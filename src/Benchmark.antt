-- ===== src/Benchmark.antt =====
-- goserver/sentinel_benchmark.go: RunSentinelBenchmarkWithReport. The file and its decoding are
-- arguments; the printed lines are left out. The counters stay below the number of the cases, so they
-- are natural numbers.
pub mod Counts
pub mod Rates
use sentinel_protocol.Base.{
  ℕ, ◌+◌, Bool, true, false, not, ◌&&◌, List, [], ◌∷◌, if◌then◌else◌, length, ltb, Option, none,
  some, Fallible, ok, err,
}
use sentinel_protocol.Text.{Text, text}
use sentinel_protocol.Float64
use sentinel_protocol.Float64.{Float64}
use sentinel_protocol.Guard.Config.{SentinelGuard}
use sentinel_protocol.Guard.Evaluate.{evaluate}

pub record BenchmarkCase : Type 0 where
  pub name : Text
  pub action : Text
  pub prompt : Text
  pub expect_block : Bool

-- What the loop counts; blocked_predictions is no field of the report.
pub record BenchmarkCounts : Type 0 where
  pub total : ℕ
  pub correct : ℕ
  pub true_positive : ℕ
  pub false_positive : ℕ
  pub true_negative : ℕ
  pub false_negative : ℕ
  pub blocked_predictions : ℕ

pub record BenchmarkReport : Type 0 where
  pub total : ℕ
  pub correct : ℕ
  pub accuracy : Float64
  pub true_positive : ℕ
  pub false_positive : ℕ
  pub true_negative : ℕ
  pub false_negative : ℕ
  pub precision : Float64
  pub recall : Float64
  pub f1 : Float64
  pub block_rate : Float64

abbrev pub one_if : Bool → ℕ
one_if b = if b then 1 else 0

abbrev same : Bool → Bool → Bool
same true b = b
same false b = not b

-- The body of the loop, for what was predicted and what was expected.
unfoldable pub count_case : BenchmarkCounts → Bool → Bool → BenchmarkCounts
count_case r pred expected = record r {
  correct = r.correct + one_if (same pred expected);
  true_positive = r.true_positive + one_if (expected && pred);
  false_positive = r.false_positive + one_if (not expected && pred);
  true_negative = r.true_negative + one_if (not expected && not pred);
  false_negative = r.false_negative + one_if (expected && not pred);
  blocked_predictions = r.blocked_predictions + one_if pred;
}

unfoldable pub count_cases : SentinelGuard → BenchmarkCounts → List BenchmarkCase → BenchmarkCounts
count_cases sg r [] = r
count_cases sg r (c ∷ cases) =
    count_cases sg (count_case r (evaluate sg c.action c.prompt).should_block c.expect_block) cases

abbrev pub no_counts : ℕ → BenchmarkCounts
no_counts total = record {
  total = total;
  correct = 0;
  true_positive = 0;
  false_positive = 0;
  true_negative = 0;
  false_negative = 0;
  blocked_predictions = 0;
}

unfoldable pub benchmark_counts : SentinelGuard → List BenchmarkCase → BenchmarkCounts
benchmark_counts sg cases = count_cases sg (no_counts (length cases)) cases

abbrev pub zero_value : Float64
zero_value = record { mant = 0; scale = 0 }

-- float64(a) / float64(b), and 0 where the code leaves a ratio out.
unfoldable pub rate : ℕ → ℕ → Float64
rate a b = if ltb 0 b then Float64.div (Float64.whole a) (Float64.whole b) else zero_value

unfoldable pub f1_score : Float64 → Float64 → Float64
f1_score p r =
    if Float64.lt zero_value (Float64.add p r)
    then Float64.div (Float64.mul (Float64.mul (Float64.whole 2) p) r) (Float64.add p r)
    else zero_value

-- The part behind the loop.
unfoldable pub report_of : BenchmarkCounts → BenchmarkReport
report_of c =
    let precision = rate c.true_positive (c.true_positive + c.false_positive) in
    let recall = rate c.true_positive (c.true_positive + c.false_negative) in
    record {
      total = c.total;
      correct = c.correct;
      accuracy = rate c.correct c.total;
      true_positive = c.true_positive;
      false_positive = c.false_positive;
      true_negative = c.true_negative;
      false_negative = c.false_negative;
      precision = precision;
      recall = recall;
      f1 = f1_score precision recall;
      block_rate = rate c.blocked_predictions c.total;
    }

-- What os.ReadFile and json.Unmarshal find.
abbrev pub decoded_cases :
    (Text → Fallible (List BenchmarkCase)) → Fallible Text → Fallible (List BenchmarkCase)
decoded_cases decode (err e) = err e
decoded_cases decode (ok bytes) = decode bytes

abbrev pub reported : SentinelGuard → Fallible (List BenchmarkCase) → Fallible BenchmarkReport
reported sg (err e) = err e
reported sg (ok cases) = ok (report_of (benchmark_counts sg cases))

unfoldable pub run_sentinel_benchmark_with_report :
    (Text → Fallible Text)
    → (Text → Fallible (List BenchmarkCase))
    → Text
    → Option SentinelGuard
    → Fallible BenchmarkReport
run_sentinel_benchmark_with_report read decode path none =
    err (text "sentinel guard is not configured")
run_sentinel_benchmark_with_report read decode path (some sg) =
    reported sg (decoded_cases decode (read path))
