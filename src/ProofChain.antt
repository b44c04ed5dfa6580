-- ===== src/ProofChain.antt =====
-- goserver/sentinel_proof.go: the hash chain of audit records and its Merkle batches. SHA-256, the
-- HTTP client and the JSON decoder are not in this repository: they are the record `Services`. Each
-- method holds the lock for all of its body, so it is one step; the clock is an argument.
pub mod Chain
pub mod Batches
pub mod Tamper
pub mod Merkle
use sentinel_protocol.Base.{
  ℕ, zero, suc, ◌+◌, ◌-◌, ◌*◌, ◌/◌, ◌%◌, ◌≤◌, ◌≡◌, refl, Bool, true, false, not, ◌&&◌, ◌||◌, Option,
  none, some, List, [], ◌∷◌, ◌++◌, map, if◌then◌else◌, ltb, leb, ◌==◌, length, drop, last?, decided,
  ℤ, pos, negsuc, positive_or, Fallible, ok, err,
}
use sentinel_protocol.Text.{Text, Text-discrete, text, is_empty, join, decimal, hex_encode}
use sentinel_protocol.Guard.Config.{AuditRecord, RecordDecision}

pub record ProofEntry : Type 0 where
  pub index : ℕ
  pub record_hash : Text
  pub prev_hash : Text
  pub chain_hash : Text
  pub timestamp : ℕ
  pub action : Text
  pub decision : RecordDecision

pub record MerkleBatch : Type 0 where
  pub batch_id : ℕ
  pub merkle_root : Text
  pub entries : List ProofEntry
  pub walrus_cid : Text
  pub created_at : ℕ

pub record ProofChain : Type 0 where
  pub entries : List ProofEntry
  pub batches : List MerkleBatch
  pub batch_size : ℕ
  pub walrus_publisher_url : Text

-- SHA-256; the answer of the publisher to a batch posted to a URL, a status code and a body, if it
-- could be read; and
-- the identifiers that encoding/json finds in a body in the three shapes (an absent field is the
-- empty text).
pub record Services : Type 0 where
  pub sha256 : Text → Text
  pub post : Text → MerkleBatch → Fallible (ℕ × Fallible Text)
  pub decode_newly_created : Text → Fallible Text
  pub decode_already_certified : Text → Fallible Text
  pub decode_flat : Text → Fallible (Text × Text)

unfoldable pub new_proof_chain : ℤ → Text → ProofChain
new_proof_chain batch_size walrus_url = record {
  entries = [];
  batches = [];
  batch_size = positive_or batch_size 10;
  walrus_publisher_url = walrus_url;
}

-- Index|RecordHash|PrevHash
unfoldable pub chain_data : ℕ → Text → Text → List ℕ
chain_data index record_hash prev_hash =
    decimal index ++ (text "|" ++ (record_hash ++ (text "|" ++ prev_hash)))

unfoldable pub genesis : List ℕ
genesis = text "0x0"

-- "0x" and the hex form of a digest.
unfoldable pub hex_text : Text → List ℕ
hex_text digest = text "0x" ++ hex_encode digest

unfoldable pub compute_chain_hash : Services → ℕ → Text → Text → List ℕ
compute_chain_hash sv index record_hash prev_hash =
    hex_text (sv.sha256 (chain_data index record_hash prev_hash))

-- An odd layer repeats its last hash.
abbrev pub repeat_last : List Text → Option Text → List Text
repeat_last hashes none = hashes
repeat_last hashes (some h) = hashes ++ h ∷ []

unfoldable pub pad_layer : List Text → List Text
pad_layer hashes = if length hashes % 2 == 0 then hashes else repeat_last hashes (last? hashes)

-- The hashes of neighbours, two by two.
unfoldable pub pair_up : Services → List Text → List Text
pair_up sv [] = []
pair_up sv (a ∷ []) = []
pair_up sv (a ∷ b ∷ hashes) = sv.sha256 (a ++ b) ∷ pair_up sv hashes

-- The loop that builds the tree, with fuel.
unfoldable pub merkle_loop : Services → ℕ → List Text → List Text
merkle_loop sv zero hashes = hashes
merkle_loop sv (suc fuel) hashes = elim (ltb 1 (length hashes)) [
  | true ↦ merkle_loop sv fuel (pair_up sv (pad_layer hashes))
  | false ↦ hashes
]

unfoldable pub leaves : Services → List ProofEntry → List Text
leaves sv [] = []
leaves sv (e ∷ entries) = sv.sha256 e.chain_hash ∷ leaves sv entries

abbrev pub first_hash : List Text → Text
first_hash [] = []
first_hash (h ∷ hashes) = h

-- A layer is at most half as long as the one below, rounded up, so as many rounds as there are
-- leaves are enough.
unfoldable pub compute_merkle_root : Services → List ProofEntry → List ℕ
compute_merkle_root sv [] = genesis
compute_merkle_root sv (e ∷ entries) =
    let hashes = leaves sv (e ∷ entries) in
    hex_text (first_hash (merkle_loop sv (length hashes) hashes))

-- An identifier that was found and is not empty.
abbrev present : Fallible Text → Option Text
present (ok []) = none
present (ok (c ∷ s)) = some (c ∷ s)
present (err e) = none

abbrev present_flat : Fallible (Text × Text) → Option Text
present_flat (ok (blob_id, cid)) = elim (present (ok blob_id)) [
  | some b ↦ some b
  | none ↦ present (ok cid)
]
present_flat (err e) = none

abbrev first_present : Option Text → Option Text → Option Text
first_present (some s) o = some s
first_present none o = o

abbrev or_error : Text → Option Text → Fallible Text
or_error body (some s) = ok s
or_error body none = err (text "could not extract blob ID from walrus response: " ++ body)

unfoldable pub blob_id_of : Services → Text → Fallible Text
blob_id_of sv body = or_error body (
    first_present (present (sv.decode_newly_created body)) (
      first_present (present (sv.decode_already_certified body))
        (present_flat (sv.decode_flat body))))

-- uploadToWalrus
unfoldable pub upload_to_walrus : Services → Text → MerkleBatch → Fallible Text
upload_to_walrus sv walrus_url batch =
    elim (sv.post (walrus_url ++ text "/v1/blobs?epochs=5") batch) [
      | err e ↦ err (text "walrus upload: " ++ e)
      | ok (code, err e) ↦ err (text "read walrus response: " ++ e)
      | ok (code, ok body) ↦
          if ltb code 200 || leb 300 code
          then err (text "walrus returned status " ++ (decimal code ++ (text ": " ++ body)))
          else blob_id_of sv body
    ]

abbrev pub with_cid : MerkleBatch → Fallible Text → MerkleBatch
with_cid batch (ok cid) = record batch { walrus_cid = cid }
with_cid batch (err e) = batch

-- The batch with the identifier under which the publisher stored it, if there is a publisher.
unfoldable pub stored_batch : Services → Text → MerkleBatch → MerkleBatch
stored_batch sv url batch =
    if is_empty url then batch else with_cid batch (upload_to_walrus sv url batch)

unfoldable pub flush_batch : Services → ProofChain → List ProofEntry → ℕ → ProofChain
flush_batch sv pc entries now =
    let batch : MerkleBatch = record {
      batch_id = length pc.batches;
      merkle_root = compute_merkle_root sv entries;
      entries = entries;
      walrus_cid = [];
      created_at = now;
    } in
    record pc { batches = pc.batches ++ stored_batch sv pc.walrus_publisher_url batch ∷ [] }

-- The chain hash of the last entry, or that of the empty chain.
abbrev pub hash_of_last : Option ProofEntry → List ℕ
hash_of_last none = genesis
hash_of_last (some e) = e.chain_hash

unfoldable pub next_entry : Services → ProofChain → AuditRecord → ProofEntry
next_entry sv pc rec =
    let index = length pc.entries in
    let prev_hash = hash_of_last (last? pc.entries) in
    record {
      index = index;
      record_hash = rec.record_hash;
      prev_hash = prev_hash;
      chain_hash = compute_chain_hash sv index rec.record_hash prev_hash;
      timestamp = rec.timestamp;
      action = rec.action;
      decision = rec.decision;
    }

unfoldable pub batched_count : List MerkleBatch → ℕ
batched_count [] = 0
batched_count (b ∷ batches) = length b.entries + batched_count batches

unfoldable pub append : Services → ProofChain → AuditRecord → ℕ → ProofChain × ProofEntry
append sv pc rec now =
    let entry = next_entry sv pc rec in
    let grown = record pc { entries = pc.entries ++ entry ∷ [] } in
    let pending = drop (batched_count pc.batches) grown.entries in
    (if leb pc.batch_size (length pending) then flush_batch sv grown pending now else grown, entry)

unfoldable pub get_latest_proof : ProofChain → Option ProofEntry
get_latest_proof pc = last? pc.entries

unfoldable pub get_latest_batch : ProofChain → Option MerkleBatch
get_latest_batch pc = last? pc.batches

-- The loop of VerifyChain, with the hash that the next entry must name.
unfoldable pub verify_from : Services → Text → List ProofEntry → Bool
verify_from sv prev [] = true
verify_from sv prev (e ∷ entries) =
    decided (Text-discrete e.prev_hash prev)
    && (decided
          (Text-discrete e.chain_hash (compute_chain_hash sv e.index e.record_hash e.prev_hash))
        && verify_from sv e.chain_hash entries)

unfoldable pub verify_chain : Services → ProofChain → Bool
verify_chain sv pc = verify_from sv genesis pc.entries

unfoldable pub len : ProofChain → ℕ
len pc = length pc.entries

-- A history of records, each with the reading of the clock for its batch.
unfoldable pub append_all : Services → ProofChain → List (AuditRecord × ℕ) → ProofChain
append_all sv pc [] = pc
append_all sv pc ((rec, now) ∷ recs) = append_all sv (append sv pc rec now).0 recs
