-- ===== src/Benchmark/Counts.antt =====
-- The counts of the benchmark fit together, and count what they are named for.
use sentinel_protocol.Base.{ℕ, ◌+◌, ◌≡◌, refl, Bool, List, [], ◌∷◌, arith, length}
use sentinel_protocol.Guard.Config.{SentinelGuard}
use sentinel_protocol.Guard.Evaluate.{evaluate}
use sentinel_protocol.Benchmark.{
  BenchmarkCase, BenchmarkCounts, count_case, count_cases, benchmark_counts, one_if,
}

-- How many of the cases expect to be blocked.
abbrev pub expected_blocks : List BenchmarkCase → ℕ
expected_blocks [] = 0
expected_blocks (c ∷ cases) = one_if c.expect_block + expected_blocks cases

-- The report has counted `n` cases, `k` of which expect to be blocked.
record Counted (r : BenchmarkCounts) (n k : ℕ) : Type 0 where
  partition : r.true_positive + r.false_positive + r.true_negative + r.false_negative ≡ n
  right : r.correct ≡ r.true_positive + r.true_negative
  predicted : r.blocked_predictions ≡ r.true_positive + r.false_positive
  expected : r.true_positive + r.false_negative ≡ k

count_case-Counted :
    (r : BenchmarkCounts) (n k : ℕ) (pred expect : Bool)
    → Counted r n k
    → Counted (count_case r pred expect) (n + 1) (k + one_if expect)
unfolding count_case
count_case-Counted r n k pred expect c = record {
  partition = ground (arith, c.partition);
  right = ground (arith, c.right);
  predicted = ground (arith, c.predicted);
  expected = ground (arith, c.expected);
}

count_cases-Counted :
    (sg : SentinelGuard) (r : BenchmarkCounts) (cases : List BenchmarkCase) (n k m j : ℕ)
    → Counted r n k
    → n + length cases ≡ m
    → k + expected_blocks cases ≡ j
    → Counted (count_cases sg r cases) m j
unfolding count_cases
count_cases-Counted sg r [] n k m j c en ek = record {
  partition = omega (arith, c.partition);
  right = c.right;
  predicted = c.predicted;
  expected = omega (arith, c.expected);
}
count_cases-Counted sg r (x ∷ cases) n k m j c en ek =
    count_cases-Counted sg
      (count_case r (evaluate sg x.action x.prompt).should_block x.expect_block) cases (n + 1)
      (k + one_if x.expect_block) m j
      (count_case-Counted r n k (evaluate sg x.action x.prompt).should_block x.expect_block c)
      (omega arith) (omega arith)

-- For every list of cases: the four outcomes add up to the number of cases, the correct ones are the
-- true positives and the true negatives, the blocked ones are the true and the false positives, and
-- the true positives and the false negatives are the cases that expect to be blocked.
pub benchmark_counts_fit :
    (sg : SentinelGuard) (cases : List BenchmarkCase)
    → let r = benchmark_counts sg cases in
      (r.true_positive + r.false_positive + r.true_negative + r.false_negative ≡ length cases)
      × (r.correct ≡ r.true_positive + r.true_negative)
      × (r.blocked_predictions ≡ r.true_positive + r.false_positive)
      × (r.true_positive + r.false_negative ≡ expected_blocks cases)
unfolding benchmark_counts
benchmark_counts_fit sg cases =
    let c =
      count_cases-Counted sg _ cases 0 0 (length cases) (expected_blocks cases)
        (record { partition = refl; right = refl; predicted = refl; expected = refl }) (omega arith)
        (omega arith) in
    (c.partition, c.right, c.predicted, c.expected)
