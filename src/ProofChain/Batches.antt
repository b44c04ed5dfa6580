-- ===== src/ProofChain/Batches.antt =====
-- The batches partition the entries: each has exactly the batch size, none is lost, repeated or
-- reordered, and fewer than the batch size are pending.
use sentinel_protocol.Base.{
  ℕ, ◌+◌, ◌<◌, ◌≡◌, refl, sym, ap, ◌∙◌, List, [], ◌∷◌, ◌++◌, arith, if◌then◌else◌, leb, length,
  length-append, drop, drop-length_append, Bool-cases, if_both, inl, inr, All, All-append, ℤ,
  positive_or-pos, Fallible, ok, err,
}
use mathlib.Core.List.{append_assoc, append-nil}
use sentinel_protocol.Text.{Text, is_empty}
use sentinel_protocol.Guard.Config.{AuditRecord}
use sentinel_protocol.ProofChain.{
  ProofEntry, MerkleBatch, ProofChain, Services, new_proof_chain, compute_merkle_root, next_entry,
  batched_count, flush_batch, with_cid, stored_batch, append, append_all,
}

-- The entries of all batches, in order.
abbrev pub batched : List MerkleBatch → List ProofEntry
batched [] = []
batched (b ∷ batches) = b.entries ++ batched batches

batched-snoc :
    (bs : List MerkleBatch) (b : MerkleBatch) → batched (bs ++ b ∷ []) ≡ batched bs ++ b.entries
batched-snoc [] b = append-nil b.entries
batched-snoc (x ∷ bs) b =
    ap (λ (l : List ProofEntry). x.entries ++ l) (batched-snoc bs b)
    ∙ sym (append_assoc x.entries _ _)

batched_count-length : (bs : List MerkleBatch) → batched_count bs ≡ length (batched bs)
unfolding batched_count
batched_count-length [] = refl
batched_count-length (b ∷ bs) =
    omega (arith, batched_count-length bs, length-append b.entries (batched bs))

-- A batch is sealed over its entries: it has the batch size and the root of its own entries.
abbrev pub IsSealed : Services → ℕ → MerkleBatch → Type 0
IsSealed sv size b = (length b.entries ≡ size) × (b.merkle_root ≡ compute_merkle_root sv b.entries)

abbrev pub NumberedFrom : ℕ → List MerkleBatch → Type 0
NumberedFrom n [] = Unit {0}
NumberedFrom n (b ∷ bs) = (b.batch_id ≡ n) × NumberedFrom (n + 1) bs

NumberedFrom-snoc :
    (n : ℕ) (bs : List MerkleBatch) (b : MerkleBatch)
    → NumberedFrom n bs
    → b.batch_id ≡ n + length bs
    → NumberedFrom n (bs ++ b ∷ [])
NumberedFrom-snoc n [] b h i = (omega arith, tt)
NumberedFrom-snoc n (x ∷ bs) b h i = (h.0, NumberedFrom-snoc (n + 1) bs b h.1 (omega arith))

pub record IsBatched (sv : Services) (pc : ProofChain) : Type 0 where
  pub pending : List ProofEntry
  pub split : pc.entries ≡ batched pc.batches ++ pending
  pub pending_short : length pending < pc.batch_size
  pub sealed : All (IsSealed sv pc.batch_size) pc.batches
  pub numbered : NumberedFrom 0 pc.batches

-- What flushBatch appends, whatever the publisher answers.
abbrev Flushed : Services → ProofChain → List ProofEntry → ProofChain → Type 0
Flushed sv pc entries new =
    (b : MerkleBatch) × (new.batches ≡ pc.batches ++ b ∷ [])
    × (b.entries ≡ entries)
    × (b.merkle_root ≡ compute_merkle_root sv entries)
    × (b.batch_id ≡ length pc.batches)
    × (new.entries ≡ pc.entries)
    × (new.batch_size ≡ pc.batch_size)

abbrev Same : MerkleBatch → MerkleBatch → Type 0
Same b c = (c.entries ≡ b.entries) × (c.merkle_root ≡ b.merkle_root) × (c.batch_id ≡ b.batch_id)

with_cid-Same : (b : MerkleBatch) (answer : Fallible Text) → Same b (with_cid b answer)
with_cid-Same b (ok cid) = (refl, refl, refl)
with_cid-Same b (err e) = (refl, refl, refl)

stored_batch-Same : (sv : Services) (url : Text) (b : MerkleBatch) → Same b (stored_batch sv url b)
unfolding stored_batch
stored_batch-Same sv url b =
    if_both (Same b) (is_empty url) b _ (refl, refl, refl) (with_cid-Same b _)

flush_batch-Flushed :
    (sv : Services) (pc : ProofChain) (entries : List ProofEntry) (now : ℕ)
    → Flushed sv pc entries (flush_batch sv pc entries now)
unfolding flush_batch
flush_batch-Flushed sv pc entries now =
    let (es, root, id) = stored_batch-Same sv pc.walrus_publisher_url (record {
      batch_id = length pc.batches;
      merkle_root = compute_merkle_root sv entries;
      entries = entries;
      walrus_cid = [];
      created_at = now;
    }) in
    (_, refl, es, root, id, refl, refl)

append_pending :
    (sv : Services) (pc : ProofChain) (rec : AuditRecord) (pending : List ProofEntry)
    → pc.entries ≡ batched pc.batches ++ pending
    → (e : ProofEntry) → drop (batched_count pc.batches) (pc.entries ++ e ∷ []) ≡ pending ++ e ∷ []
append_pending sv pc rec pending split e =
    ap (λ (l : List ProofEntry). drop (batched_count pc.batches) (l ++ e ∷ [])) split
    ∙ (ap (drop (batched_count pc.batches)) (append_assoc (batched pc.batches) pending (e ∷ []))
        ∙ rw (batched_count-length pc.batches) (drop-length_append (batched pc.batches) _))

abbrev grown : Services → ProofChain → AuditRecord → ProofChain
grown sv pc rec = record pc { entries = pc.entries ++ next_entry sv pc rec ∷ [] }

module _ (sv : Services) (pc : ProofChain) (rec : AuditRecord) (now : ℕ) (c : IsBatched sv pc) where
  longer : List ProofEntry
  longer = c.pending ++ next_entry sv pc rec ∷ []

  length-longer : length longer ≡ length c.pending + 1
  unfolding longer
  length-longer = omega (arith, length-append c.pending (next_entry sv pc rec ∷ []))

  split-longer : pc.entries ++ next_entry sv pc rec ∷ [] ≡ batched pc.batches ++ longer
  unfolding longer
  split-longer =
      ap (λ (l : List ProofEntry). l ++ next_entry sv pc rec ∷ []) c.split
      ∙ append_assoc (batched pc.batches) c.pending _

  append_by_test : (append sv pc rec now).0 ≡ (
      if leb pc.batch_size (length longer)
      then flush_batch sv (grown sv pc rec) longer now
      else grown sv pc rec)
  unfolding append longer
  append_by_test = rw (append_pending sv pc rec c.pending c.split (next_entry sv pc rec))

  waits : length longer < pc.batch_size → IsBatched sv (grown sv pc rec)
  waits room = record {
    pending = longer;
    split = split-longer;
    pending_short = room;
    sealed = c.sealed;
    numbered = c.numbered;
  }

  flushes :
      (new : ProofChain)
      → length longer ≡ pc.batch_size
      → Flushed sv (grown sv pc rec) longer new
      → IsBatched sv new
  flushes new full (b, bs, es, root, id, entries, size) = record {
    pending = [];
    split =
        entries
        ∙ (split-longer
            ∙ sym (
                append-nil _
                ∙ (ap batched bs
                    ∙ (batched-snoc pc.batches b
                        ∙ ap (λ (l : List ProofEntry). batched pc.batches ++ l) es))));
    pending_short = omega (arith, c.pending_short);
    sealed =
        rw (size, bs)
          (All-append _ pc.batches (b ∷ []) c.sealed
            ((ap length es ∙ full, root ∙ ap (compute_merkle_root sv) (sym es)), tt));
    numbered = rw bs (NumberedFrom-snoc 0 pc.batches b c.numbered (id ∙ omega arith));
  }

  -- Append keeps the batches sealed and the rest of the entries pending.
  pub append-IsBatched : IsBatched sv (append sv pc rec now).0
  append-IsBatched = rw append_by_test (elim (Bool-cases (leb pc.batch_size (length longer))) [
    | inl full ↦ rw full (
        flushes (flush_batch sv (grown sv pc rec) longer now)
          (ground (arith, length-longer, c.pending_short))
          (flush_batch-Flushed sv (grown sv pc rec) longer now))
    | inr room ↦ rw room (waits (ground arith))
  ])

append_all-IsBatched :
    (sv : Services) (pc : ProofChain) (recs : List (AuditRecord × ℕ))
    → IsBatched sv pc
    → IsBatched sv (append_all sv pc recs)
unfolding append_all
append_all-IsBatched sv pc [] c = c
append_all-IsBatched sv pc ((rec, now) ∷ recs) c =
    append_all-IsBatched sv (append sv pc rec now).0 recs (append-IsBatched sv pc rec now c)

new-IsBatched : (sv : Services) (size : ℤ) (url : Text) → IsBatched sv (new_proof_chain size url)
unfolding new_proof_chain
new-IsBatched sv size url = record {
  pending = [];
  split = refl;
  pending_short = positive_or-pos size 10 (omega arith);
  sealed = tt;
  numbered = tt;
}

-- However a chain is filled by Append, its batches partition its entries in order: each batch has
-- exactly the batch size, the number at which it stands and the Merkle root of its own entries, and
-- fewer entries than the batch size are pending.
pub filled_chain_batches :
    (sv : Services) (size : ℤ) (url : Text) (recs : List (AuditRecord × ℕ))
    → IsBatched sv (append_all sv (new_proof_chain size url) recs)
filled_chain_batches sv size url recs = append_all-IsBatched sv _ recs (new-IsBatched sv size url)
