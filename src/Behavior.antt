-- ===== src/Behavior.antt =====
-- goserver/behavioral_detection.go: the profile of an agent and the anomaly score of a command.
-- The profile's lock is left out: each method is one atomic step. Time is an argument.
pub mod Scores
pub mod Profile
pub mod Calm
pub mod Summary
use Prim.Native.String.{String}
use sentinel_protocol.Base.{
  ℕ, ◌+◌, ◌-◌, Bool, true, false, not, ◌||◌, Option, none, some, List, [], ◌∷◌, ◌++◌, map, ltb, leb,
  if◌then◌else◌, length, drop, ℤ, pos, increment, ltb_ℤ, get, put, ◌≡◌, refl,
}
use sentinel_protocol.Text.{
  Text, Text-discrete, text, to_lower, trim_space, contains, is_empty, has_any,
}
use sentinel_protocol.Float32
use sentinel_protocol.Float32.{Float32, hundredths, whole}

pub data OpType : Type 0 where
  financial privilege_escalation system_modification data_exfiltration file_management : OpType
  code_editing api_call unknown : OpType

-- The source's spelling of a class.
unfoldable pub op_type_text : OpType → List ℕ
op_type_text financial = text "FINANCIAL"
op_type_text privilege_escalation = text "PRIVILEGE_ESCALATION"
op_type_text system_modification = text "SYSTEM_MODIFICATION"
op_type_text data_exfiltration = text "DATA_EXFILTRATION"
op_type_text file_management = text "FILE_MANAGEMENT"
op_type_text code_editing = text "CODE_EDITING"
op_type_text api_call = text "API_CALL"
op_type_text unknown = text "UNKNOWN"

pub data Severity : Type 0 where
  low medium high : Severity

pub record AgentProfile : Type 0 where
  pub agent_id : Text
  pub typical_ops : List (Text × ℤ)
  pub never_ops : List Text
  pub risk_baseline : Float32
  pub last_ops_history : List Text
  pub profile_created : ℕ

pub record OperationCategory : Type 0 where
  pub category : OpType
  pub keywords : List Text
  pub risk_base : Float32

pub record AnomalyResult : Type 0 where
  pub score : Float32
  pub reason : Text
  pub op_type : OpType
  pub severity : Severity
  pub is_anomaly : Bool

category_of : OpType → List String → ℕ → OperationCategory
unfolding text hundredths
category_of t words risk = record {
  category = t;
  keywords = map text words;
  risk_base = hundredths risk;
}

unfoldable pub default_operation_categories : List OperationCategory
unfolding category_of
default_operation_categories =
    category_of financial ("transfer" ∷ "send" ∷ "wallet" ∷ "approve" ∷ "swap" ∷ []) 80
    ∷ category_of privilege_escalation ("sudo" ∷ "chmod" ∷ "chown" ∷ "root" ∷ "su " ∷ []) 90
    ∷ category_of system_modification ("rm -rf" ∷ "mkfs" ∷ "shutdown" ∷ "reboot" ∷ "format" ∷ []) 85
    ∷ category_of data_exfiltration ("curl" ∷ "wget" ∷ "scp" ∷ "upload" ∷ "post " ∷ []) 70
    ∷ category_of file_management ("ls" ∷ "cd " ∷ "mkdir" ∷ "cp " ∷ "mv " ∷ []) 15
    ∷ category_of code_editing ("git" ∷ "go " ∷ "npm" ∷ "cargo" ∷ "make" ∷ []) 20
    ∷ category_of api_call ("http" ∷ "api" ∷ "rest" ∷ "graphql" ∷ []) 30
    ∷ []

unfoldable pub new_agent_profile : Text → ℕ → AgentProfile
new_agent_profile agent_id now = record {
  agent_id = agent_id;
  typical_ops = [];
  never_ops = [];
  risk_baseline = hundredths 20;
  last_ops_history = [];
  profile_created = now;
}

unfoldable pub normalize_op : Text → List ℕ
normalize_op op = to_lower (trim_space op)

-- A read of a map of counts: a key that is missing counts 0.
unfoldable pub count_of : Text → List (Text × ℤ) → ℤ
count_of op ops = elim (get Text-discrete op ops) [ none ↦ pos 0 | some n ↦ n ]

abbrev pub max_history : ℕ
max_history = 50

unfoldable pub record_operation : AgentProfile → Text → AgentProfile
record_operation profile op =
    let normalized = normalize_op op in
    let history = profile.last_ops_history ++ normalized ∷ [] in
    if is_empty normalized then profile else record profile {
      typical_ops =
          put Text-discrete normalized (increment (count_of normalized profile.typical_ops))
            profile.typical_ops;
      last_ops_history =
          if ltb max_history (length history)
          then drop (length history - max_history) history
          else history;
    }

-- The patterns that are not blank, normalised.
unfoldable pub normalized_ops : List Text → List (List ℕ)
normalized_ops [] = []
normalized_ops (op ∷ ops) =
    let n = normalize_op op in if is_empty n then normalized_ops ops else n ∷ normalized_ops ops

unfoldable pub set_never_ops : AgentProfile → List Text → AgentProfile
set_never_ops profile ops = record profile { never_ops = normalized_ops ops }

unfoldable pub first_category : Text → List OperationCategory → OpType × Float32
first_category s [] = (unknown, hundredths 40)
first_category s (c ∷ cs) =
    if has_any s c.keywords then (c.category, c.risk_base) else first_category s cs

unfoldable pub classify_operation_with_risk : Text → OpType × Float32
classify_operation_with_risk op = first_category (normalize_op op) default_operation_categories

unfoldable pub classify_operation : Text → OpType
classify_operation op = (classify_operation_with_risk op).0

unfoldable pub severity_from_score : Float32 → Severity
severity_from_score score =
    if Float32.le (hundredths 80) score
    then high
    else if Float32.le (hundredths 50) score
    then medium
    else low

unfoldable pub min_float : Float32 → Float32 → Float32
min_float a b = if Float32.lt a b then a else b

unfoldable pub max_float : Float32 → Float32 → Float32
max_float a b = if Float32.lt b a then a else b

-- The first hard-blocked pattern that stands in the command.
unfoldable pub matching_never_op : Text → List Text → Option (List ℕ)
matching_never_op s [] = none
matching_never_op s (never ∷ rest) =
    if contains s never then some never else matching_never_op s rest

-- What a score decides.
unfoldable pub scored : Float32 → Text → OpType → AnomalyResult
scored score reason op_type = record {
  score = score;
  reason = reason;
  op_type = op_type;
  severity = severity_from_score score;
  is_anomaly = Float32.le (hundredths 50) score;
}

unfoldable pub seen_score : Float32 → Float32
seen_score base_risk = max_float (hundredths 2) (Float32.mul base_risk (hundredths 25))

abbrev pub is_nil : List (Text × ℤ) → Bool
is_nil [] = true
is_nil (x ∷ xs) = false

-- The flag says that the profile is empty (cold start).
unfoldable pub novelty_score : Bool → Float32 → Float32
novelty_score cold base_risk =
    let novelty_boost = if cold then hundredths 20 else hundredths 35 in
    min_float (whole 1) (Float32.add base_risk novelty_boost)

unfoldable pub novelty_reason : OpType → List ℕ
novelty_reason unknown = text "new operation outside learned profile"
novelty_reason t = text "new " ++ (op_type_text t ++ text " operation outside learned profile")

-- The part of DetectAnomaly behind the search for a hard-blocked pattern.
unfoldable pub detect_by_profile : AgentProfile → Text → AnomalyResult
detect_by_profile profile normalized =
    let (op_type, base_risk) = classify_operation_with_risk normalized in
    if ltb_ℤ (pos 0) (count_of normalized profile.typical_ops)
    then scored (seen_score base_risk) (text "operation observed in profile") op_type
    else scored (novelty_score (is_nil profile.typical_ops) base_risk) (novelty_reason op_type)
        op_type

unfoldable pub detect_never : AgentProfile → Text → Option Text → AnomalyResult
detect_never profile normalized none = detect_by_profile profile normalized
detect_never profile normalized (some never) = record {
  score = hundredths 98;
  reason = text "matches never-op pattern: " ++ never;
  op_type = classify_operation normalized;
  severity = high;
  is_anomaly = true;
}

unfoldable pub detect_anomaly : AgentProfile → Text → AnomalyResult
detect_anomaly profile op =
    let normalized = normalize_op op in
    if is_empty normalized
    then record {
      score = whole 0;
      reason = text "empty operation";
      op_type = unknown;
      severity = low;
      is_anomaly = false;
    }
    else detect_never profile normalized (matching_never_op normalized profile.never_ops)

-- Names what a run of the detector computes with.
unfoldable pub running : Unit {0}
unfolding text to_lower trim_space contains has_any get put Text-discrete hundredths whole
    Float32.le Float32.lt Float32.add Float32.mul op_type_text default_operation_categories
    new_agent_profile normalize_op count_of record_operation normalized_ops set_never_ops
    first_category classify_operation_with_risk classify_operation severity_from_score min_float
    max_float matching_never_op scored seen_score novelty_score novelty_reason detect_by_profile
    detect_never detect_anomaly
running = tt
