-- ===== src/Benchmark/Rates.antt =====
-- The ratios of a report, on benchmarks of fewer than 2 ^ 53 cases, whose counts float64 holds exactly.
use sentinel_protocol.Base.{
  ℕ, zero, suc, ◌+◌, ◌-◌, ◌≤◌, ◌≡◌, refl, subst, true, List, [], ◌∷◌, length, All, ◌↔◌, arith, ltb,
  ℕ_discrete,
}
use native.Mathlib.Nat.{mod-one, div-one, mul-one}
use sentinel_protocol.Rounding.{bits, rounded, cut_to, rounds_up}
use sentinel_protocol.Rounding.Within.{bits-le}
use sentinel_protocol.Float64
use sentinel_protocol.Float64.{Float64}
use sentinel_protocol.Float64.Ratios.{
  IsRatio, IsPartial, IsOne, quotient-IsRatio, quotient-IsPartial, quotient-IsOne,
}
use sentinel_protocol.Guard.Config.{SentinelGuard}
use sentinel_protocol.Guard.Evaluate.{evaluate}
use sentinel_protocol.Benchmark.{
  BenchmarkCase, BenchmarkCounts, count_case, count_cases, benchmark_counts, report_of, no_counts,
  rate,
}
use sentinel_protocol.Benchmark.Counts.{benchmark_counts_fit}

whole_exact : (n : ℕ) → n ≤ 9007199254740991 → Float64.whole n ≡ record { mant = n; scale = 0 }
unfolding Float64.whole Float64.round rounded cut_to rounds_up
whole_exact n h =
    let short : bits n ≤ 53 = bits-le n 53 (omega arith) in
    let nothing_cut : bits n - 53 ≡ 0 = omega arith in
    rw (nothing_cut, mod-one n, div-one n, mul-one n) refl

rate_exact :
    (a b : ℕ)
    → 1 ≤ b
    → a ≤ 9007199254740991
    → b ≤ 9007199254740991
    → rate a b ≡ Float64.quotient a b
unfolding rate Float64.div
rate_exact a b pos small small' =
    let positive : ltb 0 b ≡ true = ground arith in
    rw (positive, whole_exact a small, whole_exact b small', mul-one a, mul-one b) refl

rate-IsRatio : (a b : ℕ) → a ≤ b → b ≤ 9007199254740991 → IsRatio (rate a b)
unfolding rate
rate-IsRatio a zero h small = omega arith
rate-IsRatio a (suc b) h small =
    rw (rate_exact a (suc b) (omega arith) (omega arith) small) (quotient-IsRatio a (suc b) h)

-- A ratio is 1 exactly when nothing is missing.
rate-IsOne : (a b : ℕ) → a ≤ b → b ≤ 9007199254740991 → IsOne (rate a b) → (1 ≤ b) × (a ≡ b)
unfolding rate
rate-IsOne a zero h small one = absurd (omega arith)
rate-IsOne a (suc b) h small one = elim (ℕ_discrete a (suc b)) [
  | yes same ↦ (omega arith, same)
  | no apart ↦
      let exact : rate a (suc b) ≡ Float64.quotient a (suc b) =
        rate_exact a (suc b) (omega arith) (omega arith) small in
      let partial : IsPartial (rate a (suc b)) =
        rw exact (quotient-IsPartial a (suc b) (omega arith) small) in
      absurd (omega arith)
]

IsOne-rate : (b : ℕ) → 1 ≤ b → b ≤ 9007199254740991 → IsOne (rate b b)
IsOne-rate b pos small = rw (rate_exact b b pos small small) (quotient-IsOne b pos)

count_cases-total :
    (sg : SentinelGuard) (c : BenchmarkCounts) (cases : List BenchmarkCase)
    → (count_cases sg c cases).total ≡ c.total
unfolding count_cases count_case
count_cases-total sg c [] = refl
count_cases-total sg c (x ∷ cases) =
    count_cases-total sg (count_case c (evaluate sg x.action x.prompt).should_block x.expect_block)
      cases

-- Every case is predicted as it was expected.
abbrev pub AllAsExpected : SentinelGuard → List BenchmarkCase → Type 0
AllAsExpected sg cases =
    All (λ c. (evaluate sg c.action c.prompt).should_block ≡ c.expect_block) cases

-- At most every case is counted as correct.
count_cases-correct-le :
    (sg : SentinelGuard) (c : BenchmarkCounts) (cases : List BenchmarkCase)
    → (count_cases sg c cases).correct ≤ c.correct + length cases
unfolding count_cases count_case
count_cases-correct-le sg c [] = omega arith
count_cases-correct-le sg c (x ∷ cases) =
    let pred = (evaluate sg x.action x.prompt).should_block in
    ground (arith, count_cases-correct-le sg (count_case c pred x.expect_block) cases)

count_cases-AllAsExpected :
    (sg : SentinelGuard) (c : BenchmarkCounts) (cases : List BenchmarkCase)
    → (count_cases sg c cases).correct ≡ c.correct + length cases
    → AllAsExpected sg cases
unfolding count_cases count_case
count_cases-AllAsExpected sg c [] h = tt
count_cases-AllAsExpected sg c (x ∷ cases) h =
    let pred = (evaluate sg x.action x.prompt).should_block in
    let rest_le = count_cases-correct-le sg (count_case c pred x.expect_block) cases in
    (
      ground (arith, rest_le),
      count_cases-AllAsExpected sg (count_case c pred x.expect_block) cases
          (ground (arith, rest_le)),
    )

AllAsExpected-count_cases :
    (sg : SentinelGuard) (c : BenchmarkCounts) (cases : List BenchmarkCase)
    → AllAsExpected sg cases
    → (count_cases sg c cases).correct ≡ c.correct + length cases
unfolding count_cases count_case
AllAsExpected-count_cases sg c [] h = omega arith
AllAsExpected-count_cases sg c (x ∷ cases) (this, rest) =
    let pred = (evaluate sg x.action x.prompt).should_block in
    ground (arith, AllAsExpected-count_cases sg (count_case c pred x.expect_block) cases rest)

ratios_at_most_one :
    (sg : SentinelGuard) (cases : List BenchmarkCase)
    → length cases ≤ 9007199254740991
    → let r = report_of (benchmark_counts sg cases) in
      IsRatio r.accuracy × IsRatio r.precision × IsRatio r.recall × IsRatio r.block_rate
unfolding report_of benchmark_counts
ratios_at_most_one sg cases small =
    let c = benchmark_counts sg cases in
    let (partition, right, predicted, expected) = benchmark_counts_fit sg cases in
    let total : c.total ≡ length cases = count_cases-total sg (no_counts (length cases)) cases in
    (
      rate-IsRatio c.correct c.total (omega arith) (omega arith),
      rate-IsRatio c.true_positive (c.true_positive + c.false_positive) (omega arith) (omega arith),
      rate-IsRatio c.true_positive (c.true_positive + c.false_negative) (omega arith) (omega arith),
      rate-IsRatio c.blocked_predictions c.total (omega arith) (omega arith),
    )

accuracy-IsOne :
    (sg : SentinelGuard) (cases : List BenchmarkCase)
    → length cases ≤ 9007199254740991
    → IsOne (report_of (benchmark_counts sg cases)).accuracy
      ↔ ((1 ≤ length cases) × AllAsExpected sg cases)
unfolding report_of benchmark_counts
accuracy-IsOne sg cases small =
    let c = benchmark_counts sg cases in
    let (partition, right, predicted, expected) = benchmark_counts_fit sg cases in
    let total : c.total ≡ length cases = count_cases-total sg (no_counts (length cases)) cases in
    (
      λ one.
          let (some_case, all_right) =
            rate-IsOne c.correct c.total (omega arith) (omega arith) one in
          (
            omega arith,
            count_cases-AllAsExpected sg (no_counts (length cases)) cases (omega arith),
          ),
      λ (p : (1 ≤ length cases) × AllAsExpected sg cases).
          let (some_case, agree) = p in
          let all_right = AllAsExpected-count_cases sg (no_counts (length cases)) cases p.1 in
          subst (λ n. IsOne (rate n c.total)) (omega arith)
            (IsOne-rate c.total (omega arith) (omega arith)),
    )

-- On fewer than 2 ^ 53 cases, as float64 rounds them: accuracy, precision, recall and block rate are at
-- most 1, and the accuracy is 1 exactly when there is a case and the guard blocks every case that
-- expects it and no other.
pub benchmark_rates :
    (sg : SentinelGuard) (cases : List BenchmarkCase)
    → length cases ≤ 9007199254740991
    → let r = report_of (benchmark_counts sg cases) in
      (IsRatio r.accuracy × IsRatio r.precision × IsRatio r.recall × IsRatio r.block_rate)
      × (IsOne r.accuracy ↔ ((1 ≤ length cases) × AllAsExpected sg cases))
benchmark_rates sg cases small = (ratios_at_most_one sg cases small, accuracy-IsOne sg cases small)
