-- ===== src/Guard/Hash.antt =====
-- goserver/sentinel_guard.go: what a call asks of the world, and the hash and the signature of a
-- record.
use sentinel_protocol.Base.{
  ℕ, ◌||◌, Option, none, some, List, [], ◌∷◌, ◌++◌, map, if◌then◌else◌, Fallible, ok, err,
}
use sentinel_protocol.Text.{Text, text, is_empty, join, decimal_int, hex_encode, trim_space}
use sentinel_protocol.Guard.Tags.{Tag, tag_text}
use sentinel_protocol.Guard.Config.{SentinelConfig, decision_text, AuditRecord}

-- What a call asks of the world: a command's combined output and its error, if it failed; the
-- fields that encoding/json finds in an output (an absent field is the empty text, `err` is a text
-- that is not JSON of the shape); SHA-256; the RFC 3339 form of a time; and the error, if any, of
-- the writes that append a record to the log at a path.
pub record Outside : Type 0 where
  pub run : List Text → Text × Option Text
  pub decode_hash : Text → Fallible Text
  pub decode_signature : Text → Fallible (Text × Text)
  pub decode_digest_v2 : Text → Fallible Text
  pub decode_digest_v1 : Text → Fallible Text
  pub sha256 : Text → Text
  pub format_time : ℕ → Text
  pub write_audit : Text → AuditRecord → Option Text

unfoldable pub joined_tags : List Tag → List ℕ
joined_tags tags = join (text ",") (map tag_text tags)

-- The output of a command, or its error in the words of the caller.
unfoldable pub run_or_fail : Outside → List Text → Text → Fallible Text
run_or_fail out args what =
    let (output, failure) = out.run args in
    elim failure [
      | none ↦ ok output
      | some e ↦ err (what ++ text " failed: " ++ e ++ text ", output: " ++ output)
    ]

-- The error of a parse, in the words of the caller.
abbrev explain {ℓ} : {A : Type ℓ} → Text → Fallible A → Fallible A
explain what (ok a) = ok a
explain what (err e) = err (what ++ e)

unfoldable pub hash_via_rust : Outside → SentinelConfig → AuditRecord → Fallible Text
hash_via_rust out cfg rec =
    if is_empty cfg.hash_cli_path
    then err (text "hash_cli_path not configured")
    else elim (run_or_fail out
        (cfg.hash_cli_path
          ∷ text "hash-audit"
          ∷ text "--action"
          ∷ rec.action
          ∷ text "--prompt"
          ∷ rec.prompt
          ∷ text "--score"
          ∷ decimal_int rec.score
          ∷ text "--tags"
          ∷ joined_tags rec.tags
          ∷ text "--decision"
          ∷ decision_text rec.decision
          ∷ text "--reason"
          ∷ rec.reason
          ∷ text "--timestamp"
          ∷ out.format_time rec.timestamp
          ∷ [])
        (text "hash-audit")) [
          | err e ↦ err e
          | ok output ↦ explain (text "hash-audit parse failed: ") (out.decode_hash output)
        ]

-- The digest that is used where the hash tool gives none.
unfoldable pub local_hash : Outside → AuditRecord → List ℕ
local_hash out rec =
    text "0x"
    ++ hex_encode (
        out.sha256 (
          join (text "|") (
            out.format_time rec.timestamp
            ∷ rec.action
            ∷ rec.prompt
            ∷ decimal_int rec.score
            ∷ joined_tags rec.tags
            ∷ decision_text rec.decision
            ∷ rec.reason
            ∷ [])))

unfoldable pub compute_hash : Outside → SentinelConfig → AuditRecord → List ℕ
compute_hash out cfg rec = elim (hash_via_rust out cfg rec) [
  | ok h ↦ if is_empty h then local_hash out rec else h
  | err e ↦ local_hash out rec
]

unfoldable pub sign_hash : Outside → SentinelConfig → Text → Fallible (Text × Text)
sign_hash out cfg record_hash =
    if is_empty cfg.sign_cli_path || is_empty (trim_space cfg.sign_priv_key)
    then err (text "signing not configured")
    else elim (run_or_fail out
        (cfg.sign_cli_path
          ∷ text "sign-audit"
          ∷ text "--record-hash"
          ∷ record_hash
          ∷ text "--private-key"
          ∷ cfg.sign_priv_key
          ∷ [])
        (text "sign-audit")) [
          | err e ↦ err e
          | ok output ↦ explain (text "sign-audit parse failed: ") (out.decode_signature output)
        ]

unfoldable pub signed_record : AuditRecord → Text → Fallible (Text × Text) → AuditRecord
signed_record rec h (ok (signature, key)) = record rec {
  record_hash = h;
  signature = signature;
  public_key = key;
}
signed_record rec h (err e) = record rec { record_hash = h; signature = []; public_key = [] }

-- The closure materializeRecord: hash the record, then sign the hash.
unfoldable pub materialize : Outside → SentinelConfig → AuditRecord → AuditRecord
materialize out cfg rec =
    let h = compute_hash out cfg rec in signed_record rec h (sign_hash out cfg h)
