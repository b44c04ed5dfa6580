-- ===== src/Guard/Anchor.antt =====
-- goserver/sentinel_guard.go: anchorToSui and what it reads from the chain client's output.
use sentinel_protocol.Base.{
  ℕ, Bool, true, false, ◌||◌, Option, none, some, List, [], ◌∷◌, if◌then◌else◌, ◌==◌, length, drop,
  ℤ, pos, ltb_ℤ, Fallible, ok, err, decided,
}
use sentinel_protocol.Text.{
  Text, Text-discrete, text, is_empty, is_prefix, decimal, decimal_int, trim_space, to_upper,
}
use sentinel_protocol.Guard.Config.{
  SentinelConfig, RecordDecision, blocked, AuditRecord, SentinelGuard,
}
use sentinel_protocol.Guard.Hash.{Outside, run_or_fail}

-- `t == s` on texts.
abbrev same_text : Text → Text → Bool
same_text t s = decided (Text-discrete t s)

unfoldable pub action_to_tag : Text → ℕ
action_to_tag action =
    let tag = to_upper (trim_space action) in
    if same_text tag (text "WAKE_UP")
    then 2
    else if same_text tag (text "LAST_WORDS")
    then 3
    else if same_text tag (text "EXEC") || same_text tag (text "SHELL")
    then 1
    else 9

-- The rest of `s` from the first place where `t` stands; strings.Index and bytes.IndexByte.
unfoldable pub from_first : Text → Text → Option (List ℕ)
from_first t [] = if is_prefix t [] then some [] else none
from_first t (c ∷ s) = if is_prefix t (c ∷ s) then some (c ∷ s) else from_first t s

unfoldable pub first_line : Text → List ℕ
first_line [] = []
first_line (c ∷ s) = if c == 10 then [] else c ∷ first_line s

abbrev or_whole : Text → Option Text → Text
or_whole s none = s
or_whole s (some r) = r

-- A digest that was decoded and is not empty.
abbrev present : Fallible Text → Option Text
present (ok []) = none
present (ok (c ∷ d)) = some (c ∷ d)
present (err e) = none

-- The digest on the line that begins "Transaction Digest:"; none gives the empty text.
unfoldable pub digest_line : Text → List ℕ
digest_line output = elim (from_first (text "Transaction Digest:") output) [
  | none ↦ []
  | some rest ↦ trim_space (drop (length (text "Transaction Digest:")) (first_line rest))
]

-- The digest in the chain client's output: of its two JSON forms, or in its text.
unfoldable pub transaction_digest : Outside → Text → List ℕ
transaction_digest out output =
    let json = or_whole output (from_first (text "{") output) in
    elim (present (out.decode_digest_v2 json)) [
      | some d ↦ d
      | none ↦ elim (present (out.decode_digest_v1 json)) [ some d ↦ d | none ↦ digest_line output ]
    ]

unfoldable pub clamp_score : ℤ → ℤ
clamp_score score =
    let floored = if ltb_ℤ score (pos 0) then pos 0 else score in
    if ltb_ℤ (pos 100) floored then pos 100 else floored

abbrev is_blocked : RecordDecision → Bool
is_blocked blocked = true
is_blocked _ = false

unfoldable pub anchor_to_sui : Outside → SentinelConfig → AuditRecord → Fallible Text
anchor_to_sui out cfg rec =
    if is_empty cfg.anchor_package
    then err (text "anchor_package is required when anchor_enabled=true")
    else if is_empty cfg.anchor_registry
    then err (text "anchor_registry is required when anchor_enabled=true")
    else elim (run_or_fail out
        (text "sui"
          ∷ text "client"
          ∷ text "call"
          ∷ text "--package"
          ∷ cfg.anchor_package
          ∷ text "--module"
          ∷ cfg.anchor_module
          ∷ text "--function"
          ∷ cfg.anchor_func
          ∷ text "--args"
          ∷ cfg.anchor_registry
          ∷ rec.record_hash
          ∷ decimal (action_to_tag rec.action)
          ∷ decimal_int (clamp_score rec.score)
          ∷ (if is_blocked rec.decision then text "true" else text "false")
          ∷ text "0x6"
          ∷ text "--gas-budget"
          ∷ text "10000000"
          ∷ text "--json"
          ∷ [])
        (text "sui call")) [ err e ↦ err e | ok output ↦ ok (transaction_digest out output) ]

-- The anchoring function of the guard, or the built-in one.
unfoldable pub anchor : Outside → SentinelGuard → AuditRecord → Fallible Text
anchor out sg rec = elim sg.anchor_fn [ none ↦ anchor_to_sui out sg.cfg rec | some f ↦ f rec ]
