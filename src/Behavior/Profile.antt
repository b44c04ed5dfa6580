-- ===== src/Behavior/Profile.antt =====
-- What the profile learns, and what it never lets through.
use sentinel_protocol.Base.{
  ℕ, ◌-◌, ◌≤◌, true, false, ◌≡◌, refl, ap, ◌∙◌, inl, inr, none, some, List, [], ◌∷◌, ◌++◌, arith,
  Bool-cases, ℤ, increment, length, length-drop, get-put_self, get, put,
}
use sentinel_protocol.Text.{
  Text, Text-discrete, contains, is_prefix, is_empty, to_lower, trim_space,
}
use sentinel_protocol.Text.Case.{to_lower_idem, trim_space-to_lower, trim_space_idem}
use sentinel_protocol.Float32.{hundredths}
use sentinel_protocol.Behavior.{
  AgentProfile, high, scored, detect_by_profile, detect_never, detect_anomaly, normalize_op,
  normalized_ops, matching_never_op, count_of, record_operation, set_never_ops, max_history,
  classify_operation_with_risk, new_agent_profile, novelty_score, novelty_reason,
}

-- To normalise twice is to normalise once: classifyOperationWithRisk normalises an operation that
-- DetectAnomaly has normalised.
pub normalize_op_idem : (op : Text) → normalize_op (normalize_op op) ≡ normalize_op op
unfolding normalize_op
normalize_op_idem op =
    ap to_lower (trim_space-to_lower (trim_space op) ∙ ap to_lower (trim_space_idem op))
    ∙ to_lower_idem (trim_space op)

count_of-put :
    (s : Text) (n : ℤ) (ops : List (Text × ℤ)) → count_of s (put Text-discrete s n ops) ≡ n
unfolding count_of
count_of-put s n ops = rw (get-put_self Text-discrete s n ops, count_of)

-- To record an operation keeps the history at fifty operations at most.
pub record_operation-history :
    (profile : AgentProfile) (op : Text)
    → length profile.last_ops_history ≤ max_history
    → length (record_operation profile op).last_ops_history ≤ max_history
unfolding record_operation
record_operation-history profile op h =
    let grown = profile.last_ops_history ++ normalize_op op ∷ [] in
    ground (arith, length-drop (length grown - max_history) grown)

-- An operation that is not blank is counted.
pub record_operation-count :
    (profile : AgentProfile) (op : Text)
    → is_empty (normalize_op op) ≡ false
    → count_of (normalize_op op) (record_operation profile op).typical_ops
      ≡ increment (count_of (normalize_op op) profile.typical_ops)
unfolding record_operation
record_operation-count profile op words = rw words (count_of-put _ _ profile.typical_ops)

pub detect_anomaly_of_none :
    (profile : AgentProfile) (op : Text)
    → is_empty (normalize_op op) ≡ false
    → matching_never_op (normalize_op op) profile.never_ops ≡ none
    → detect_anomaly profile op ≡ detect_by_profile profile (normalize_op op)
unfolding detect_anomaly detect_never
detect_anomaly_of_none profile op words free = rw (words, free)

-- A profile that has learned nothing and blocks nothing scores by the class alone.
pub detect_anomaly-fresh :
    (agent_id : Text) (now : ℕ) (op : Text)
    → is_empty (normalize_op op) ≡ false
    → let (t, r) = classify_operation_with_risk (normalize_op op) in
      detect_anomaly (new_agent_profile agent_id now) op
      ≡ scored (novelty_score true r) (novelty_reason t) t
unfolding new_agent_profile matching_never_op detect_by_profile count_of get
detect_anomaly-fresh agent_id now op words =
    detect_anomaly_of_none (new_agent_profile agent_id now) op words refl

detect_anomaly_of_some :
    (profile : AgentProfile) (op p : Text)
    → is_empty (normalize_op op) ≡ false
    → matching_never_op (normalize_op op) profile.never_ops ≡ some p
    → detect_anomaly profile op ≡ detect_never profile (normalize_op op) (some p)
unfolding detect_anomaly
detect_anomaly_of_some profile op p words hit = rw (words, hit)

-- The first pattern that matches is one of those given, and one is found if any matches.
matching_found :
    (s : Text) (before after : List Text) (never : Text)
    → contains s never ≡ true
    → (p : List ℕ) × (matching_never_op s (before ++ never ∷ after) ≡ some p)
unfolding matching_never_op
matching_found s [] after never h = (never, rw h)
matching_found s (x ∷ before) after never h = elim (Bool-cases (contains s x)) [
  | inl e ↦ (x, rw e)
  | inr e ↦ let (p, q) = matching_found s before after never h in (p, rw e q)
]

normalized_ops-split :
    (before after : List Text) (op : Text)
    → is_empty (normalize_op op) ≡ false
    → normalized_ops (before ++ op ∷ after)
      ≡ normalized_ops before ++ normalize_op op ∷ normalized_ops after
unfolding normalized_ops
normalized_ops-split [] after op words = rw words
normalized_ops-split (x ∷ before) after op words =
    ground (arith, normalized_ops-split before after op words)

is_empty_of_contains :
    (s t : List ℕ) → contains s t ≡ true → is_empty t ≡ false → is_empty s ≡ false
unfolding contains is_prefix
is_empty_of_contains [] [] h words = words
is_empty_of_contains [] (c ∷ t) h words = cc
is_empty_of_contains (x ∷ s) t h words = refl

-- A command in which one of the patterns given to SetNeverOps stands scores 0.98, HIGH, whatever
-- the profile has learned.
pub never_ops_flagged :
    (profile : AgentProfile) (before after : List Text) (op command : Text)
    → is_empty (normalize_op op) ≡ false
    → contains (normalize_op command) (normalize_op op) ≡ true
    → let r = detect_anomaly (set_never_ops profile (before ++ op ∷ after)) command in
      (r.score ≡ hundredths 98) × (r.severity ≡ high) × (r.is_anomaly ≡ true)
unfolding set_never_ops detect_never
never_ops_flagged profile before after op command words h =
    let (p, hit) =
      matching_found (normalize_op command) (normalized_ops before) (normalized_ops after)
        (normalize_op op) h in
    rw
      (detect_anomaly_of_some (set_never_ops profile (before ++ op ∷ after)) command p
        (is_empty_of_contains (normalize_op command) (normalize_op op) h words)
        (rw (normalized_ops-split before after op words) hit))
      (refl, refl, refl)
