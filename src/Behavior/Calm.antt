-- ===== src/Behavior/Calm.antt =====
-- goserver/behavioral_detection.go: RecordOperation over a sequence, and what DetectAnomaly says after it.
use sentinel_protocol.Base.{
  sym, get-put_ne, ◌≢◌, suc, ◌+◌, ℕ, ◌≤◌, ◌<◌, true, false, ◌≡◌, refl, ap, ◌∙◌, inl, inr, none,
  List, [], ◌∷◌, arith, Bool-cases, ltb_ℤ, ℤ, pos, increment, length, max_int64, put,
}
use sentinel_protocol.Text.{Text, Text-discrete, is_empty}
use sentinel_protocol.Float32
use sentinel_protocol.Float32.{hundredths}
use sentinel_protocol.Behavior.{
  AgentProfile, scored, detect_by_profile, detect_anomaly, normalize_op, matching_never_op,
  count_of, record_operation,
}
use sentinel_protocol.Behavior.Scores.{seen_score_calm}
use sentinel_protocol.Behavior.Profile.{record_operation-count, detect_anomaly_of_none}

-- Operations that are recorded one after the other.
abbrev pub record_all : AgentProfile → List Text → AgentProfile
record_all profile [] = profile
record_all profile (op ∷ ops) = record_all (record_operation profile op) ops

-- A count of at least one, and with room for so many more.
abbrev IsSeen : Text → ℕ → AgentProfile → Type 0
IsSeen s more profile =
    (n : ℕ) × (count_of s profile.typical_ops ≡ pos (suc n)) × (suc n + more ≤ max_int64)

increment_pos : (n : ℕ) → n < max_int64 → increment (pos n) ≡ pos (suc n)
increment_pos n room = ground arith

count_of-put_ne :
    (k s : Text) (n : ℤ) (ops : List (Text × ℤ))
    → k ≢ s
    → count_of s (put Text-discrete k n ops) ≡ count_of s ops
unfolding count_of
count_of-put_ne k s n ops apart = ground (arith, get-put_ne Text-discrete k s n ops apart)

-- Another operation leaves the count as it is.
record_operation-count_other :
    (profile : AgentProfile) (op s : Text)
    → normalize_op op ≢ s
    → count_of s (record_operation profile op).typical_ops ≡ count_of s profile.typical_ops
unfolding record_operation
record_operation-count_other profile op s apart = elim (Bool-cases (is_empty (normalize_op op))) [
  | inl blank ↦ rw blank refl
  | inr words ↦ rw words (count_of-put_ne (normalize_op op) s _ profile.typical_ops apart)
]

record_operation-IsSeen :
    (profile : AgentProfile) (s op : Text) (more : ℕ)
    → is_empty s ≡ false
    → IsSeen s (suc more) profile
    → IsSeen s more (record_operation profile op)
record_operation-IsSeen profile s op more words (n, counted, room) =
    elim (Text-discrete (normalize_op op) s) [
      | no apart ↦ (n, record_operation-count_other profile op s apart ∙ counted, omega arith)
      | yes same ↦
          let counts : count_of s (record_operation profile op).typical_ops ≡ pos (suc (suc n)) =
            ap (λ k. count_of k (record_operation profile op).typical_ops) (sym same)
            ∙ record_operation-count profile op (rw same words)
            ∙ ap (λ k. increment (count_of k profile.typical_ops)) same
            ∙ ap increment counted
            ∙ increment_pos (suc n) (omega arith) in
          (suc n, counts, omega arith)
    ]

record_operation-never_ops :
    (profile : AgentProfile) (op : Text)
    → (record_operation profile op).never_ops ≡ profile.never_ops
unfolding record_operation
record_operation-never_ops profile op = ground arith

seen_is_calm :
    (profile : AgentProfile) (op : Text) (n : ℕ)
    → is_empty (normalize_op op) ≡ false
    → count_of (normalize_op op) profile.typical_ops ≡ pos (suc n)
    → matching_never_op (normalize_op op) profile.never_ops ≡ none
    → (detect_anomaly profile op).is_anomaly ≡ false
unfolding detect_by_profile scored Float32.le
seen_is_calm profile op n words counted free =
    let seen : ltb_ℤ (pos 0) (count_of (normalize_op op) profile.typical_ops) ≡ true =
      rw counted (ground arith) in
    rw (detect_anomaly_of_none profile op words free, detect_by_profile)
      (rw seen (seen_score_calm (normalize_op op)))

all_calm :
    (profile : AgentProfile) (op : Text) (ops : List Text)
    → is_empty (normalize_op op) ≡ false
    → IsSeen (normalize_op op) (length ops) profile
    → matching_never_op (normalize_op op) profile.never_ops ≡ none
    → (detect_anomaly (record_all profile ops) op).is_anomaly ≡ false
all_calm profile op [] words (n, counted, room) free = seen_is_calm profile op n words counted free
all_calm profile op (o ∷ ops) words seen free =
    all_calm (record_operation profile o) op ops words
      (record_operation-IsSeen profile (normalize_op op) o (length ops) words seen)
      (ap (matching_never_op (normalize_op op)) (record_operation-never_ops profile o) ∙ free)

-- An operation that is not blank, was recorded and matches no hard-blocked pattern is from then on
-- no anomaly, whatever its class and whatever is recorded after it: its count must have room below
-- the largest int for the recordings, where the counter would wrap.
pub recorded_is_calm :
    (profile : AgentProfile) (op : Text) (later : List Text) (n : ℕ)
    → is_empty (normalize_op op) ≡ false
    → count_of (normalize_op op) profile.typical_ops ≡ pos n
    → n + length later < max_int64
    → matching_never_op (normalize_op op) profile.never_ops ≡ none
    → (detect_anomaly (record_all profile (op ∷ later)) op).is_anomaly ≡ false
recorded_is_calm profile op later n words counted room free =
    all_calm (record_operation profile op) op later words (n, is_seen, omega arith)
      (ap (matching_never_op (normalize_op op)) (record_operation-never_ops profile op) ∙ free)
  where
    is_seen : count_of (normalize_op op) (record_operation profile op).typical_ops ≡ pos (suc n)
    is_seen =
        record_operation-count profile op words
        ∙ ap increment counted
        ∙ increment_pos n (omega arith)
