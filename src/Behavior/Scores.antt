-- ===== src/Behavior/Scores.antt =====
-- The scores of the anomaly detector: the classes of commands have finitely many base risks, so a
-- claim on every score is checked at each of them.
use sentinel_protocol.Base.{
  Bool, true, false, not, ◌&&◌, ◌≡◌, refl, ◌≢◌, inl, inr, Option, none, some, List, [], ◌∷◌, arith,
  Bool-cases, All, ltb_ℤ, pos,
}
use sentinel_protocol.Text.{Text, has_any, is_empty}
use sentinel_protocol.Float32
use sentinel_protocol.Float32.{Float32, hundredths, whole}
use sentinel_protocol.Behavior.{
  OpType, unknown, low, AgentProfile, OperationCategory, AnomalyResult,
  default_operation_categories, first_category, classify_operation_with_risk, seen_score,
  novelty_score, scored, detect_by_profile, detect_never, detect_anomaly, normalize_op, count_of,
  severity_from_score, max_float, min_float,
}

-- What holds of each class of a table and of the class of the rest holds of the class found.
pub first_category-All {ℓ} :
    (P : OpType × Float32 → Type ℓ) (s : Text) (cs : List OperationCategory)
    → P (unknown, hundredths 40)
    → All (λ c. P (c.category, c.risk_base)) cs
    → P (first_category s cs)
unfolding first_category
first_category-All P s [] u h = u
first_category-All P s (c ∷ cs) u h = elim (Bool-cases (has_any s c.keywords)) [
  | inl e ↦ rw e h.0
  | inr e ↦ rw e (first_category-All P s cs u h.1)
]

-- So it holds of every classification.
pub classify-All {ℓ} :
    (P : OpType × Float32 → Type ℓ) (op : Text)
    → P (unknown, hundredths 40)
    → All (λ c. P (c.category, c.risk_base)) default_operation_categories
    → P (classify_operation_with_risk op)
unfolding classify_operation_with_risk
classify-All P op u h = first_category-All P (normalize_op op) default_operation_categories u h

-- A float between 0 and 1, as a test.
abbrev pub AtMostOne : Float32 → Type 0
AtMostOne score = Float32.le score (whole 1) ≡ true

-- What the finitely many base risks have in common, as one test: no score passes 1, an operation
-- that was observed scores below the threshold of an anomaly and below any new operation.
abbrev checks : Float32 → Bool
checks r =
    Float32.le (seen_score r) (whole 1)
    && (Float32.le (novelty_score true r) (whole 1) && Float32.le (novelty_score false r) (whole 1))
    && not (Float32.le (hundredths 50) (seen_score r))
    && (Float32.lt (seen_score r) (novelty_score true r)
        && Float32.lt (seen_score r) (novelty_score false r))

classify-checks : (op : Text) → checks (classify_operation_with_risk op).1 ≡ true
unfolding default_operation_categories seen_score novelty_score max_float min_float Float32.le
    Float32.lt Float32.mul Float32.add whole
classify-checks op =
    classify-All (λ c. checks c.1 ≡ true) op refl
      (refl, (refl, (refl, (refl, (refl, (refl, (refl, tt)))))))

pub seen_score_bounded : (op : Text) → AtMostOne (seen_score (classify_operation_with_risk op).1)
seen_score_bounded op = ground (arith, classify-checks op)

pub seen_score_calm :
    (op : Text)
    → Float32.le (hundredths 50) (seen_score (classify_operation_with_risk op).1) ≡ false
seen_score_calm op = ground (arith, classify-checks op)

pub novelty_score_bounded :
    (cold : Bool) (op : Text) → AtMostOne (novelty_score cold (classify_operation_with_risk op).1)
novelty_score_bounded true op = ground (arith, classify-checks op)
novelty_score_bounded false op = ground (arith, classify-checks op)

pub seen-lt-novelty :
    (cold : Bool) (op : Text)
    → Float32.lt
        (seen_score (classify_operation_with_risk op).1)
        (novelty_score cold (classify_operation_with_risk op).1)
      ≡ true
seen-lt-novelty true op = ground (arith, classify-checks op)
seen-lt-novelty false op = ground (arith, classify-checks op)

-- 0.8 is above 0.5, also as float32.
half_of_eight_tenths :
    (score : Float32)
    → Float32.le (hundredths 80) score ≡ true
    → Float32.le (hundredths 50) score ≡ true
unfolding Float32.le hundredths
half_of_eight_tenths score h = ground arith

-- A result that keeps its score between 0 and 1, and its flag and severity in step.
pub record IsCoherent (r : AnomalyResult) : Type 0 where
  pub bounded : AtMostOne r.score
  pub flagged : r.is_anomaly ≡ true → r.severity ≢ low
  pub calm : r.is_anomaly ≡ false → r.severity ≡ low

scored-IsCoherent :
    (score : Float32) (reason : Text) (t : OpType)
    → AtMostOne score
    → IsCoherent (scored score reason t)
unfolding scored severity_from_score
scored-IsCoherent score reason t h = ground (arith, half_of_eight_tenths score)

detect_by_profile-IsCoherent :
    (profile : AgentProfile) (s : Text) → IsCoherent (detect_by_profile profile s)
unfolding detect_by_profile
detect_by_profile-IsCoherent profile s =
    elim (Bool-cases (ltb_ℤ (pos 0) (count_of s profile.typical_ops))) [
      | inl e ↦ rw e (scored-IsCoherent _ _ _ (seen_score_bounded s))
      | inr e ↦ rw e (scored-IsCoherent _ _ _ (novelty_score_bounded _ s))
    ]

detect_never-IsCoherent :
    (profile : AgentProfile) (s : Text) (o : Option Text) → IsCoherent (detect_never profile s o)
unfolding detect_never hundredths Float32.le whole
detect_never-IsCoherent profile s none = detect_by_profile-IsCoherent profile s
detect_never-IsCoherent profile s (some never) = record {
  bounded = refl;
  flagged = λ _ e. cc;
  calm = λ e. cc;
}

-- On every path of the detector the score is at most 1, and the result is flagged as an anomaly
-- exactly when its severity is not LOW.
pub detect_anomaly-IsCoherent :
    (profile : AgentProfile) (op : Text) → IsCoherent (detect_anomaly profile op)
unfolding detect_anomaly whole Float32.le
detect_anomaly-IsCoherent profile op = elim (Bool-cases (is_empty (normalize_op op))) [
  | inl blank ↦ rw blank (record { bounded = refl; flagged = λ e. cc; calm = λ _. refl })
  | inr words ↦ rw words (detect_never-IsCoherent profile (normalize_op op) _)
]
