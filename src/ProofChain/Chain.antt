-- ===== src/ProofChain/Chain.antt =====
-- What Append keeps: every link verifies, and every entry has the index at which it stands.
use sentinel_protocol.Base.{ℕ, ◌+◌, ◌≡◌, refl, true, List, [], ◌∷◌, ◌++◌, arith, length, last?, ℤ}
use sentinel_protocol.Text.{Text}
use sentinel_protocol.Guard.Config.{AuditRecord}
use sentinel_protocol.ProofChain.{
  ProofEntry, ProofChain, Services, new_proof_chain, genesis, compute_chain_hash, hash_of_last,
  next_entry, flush_batch, append, verify_from, verify_chain, append_all,
}

-- The hash that the next entry must name, after entries that follow `prev`.
abbrev pub tip : Text → List ProofEntry → Text
tip prev [] = prev
tip prev (e ∷ entries) = tip e.chain_hash entries

tip-last :
    (prev : Text) (e : ProofEntry) (entries : List ProofEntry)
    → hash_of_last (last? (e ∷ entries)) ≡ tip prev (e ∷ entries)
tip-last prev e [] = refl
tip-last prev e (f ∷ entries) = tip-last e.chain_hash f entries

hash_of_last-tip : (entries : List ProofEntry) → hash_of_last (last? entries) ≡ tip genesis entries
hash_of_last-tip [] = refl
hash_of_last-tip (e ∷ entries) = tip-last genesis e entries

verify_from-snoc :
    (sv : Services) (prev : Text) (entries : List ProofEntry) (e : ProofEntry)
    → verify_from sv prev entries ≡ true
    → e.prev_hash ≡ tip prev entries
    → e.chain_hash ≡ compute_chain_hash sv e.index e.record_hash e.prev_hash
    → verify_from sv prev (entries ++ e ∷ []) ≡ true
unfolding verify_from
verify_from-snoc sv prev [] e v p c = ground arith
verify_from-snoc sv prev (x ∷ entries) e v p c =
    ground (arith, verify_from-snoc sv x.chain_hash entries e)

-- The entries carry the indices from `n` on.
abbrev pub IndexedFrom : ℕ → List ProofEntry → Type 0
IndexedFrom n [] = Unit {0}
IndexedFrom n (e ∷ entries) = (e.index ≡ n) × IndexedFrom (n + 1) entries

IndexedFrom-snoc :
    (n : ℕ) (entries : List ProofEntry) (e : ProofEntry)
    → IndexedFrom n entries
    → e.index ≡ n + length entries
    → IndexedFrom n (entries ++ e ∷ [])
IndexedFrom-snoc n [] e h i = (omega arith, tt)
IndexedFrom-snoc n (x ∷ entries) e h i = (h.0, IndexedFrom-snoc (n + 1) entries e h.1 (omega arith))

pub record IsChained (sv : Services) (pc : ProofChain) : Type 0 where
  pub verified : verify_chain sv pc ≡ true
  pub indexed : IndexedFrom 0 pc.entries

pub entries-append :
    (sv : Services) (pc : ProofChain) (rec : AuditRecord) (now : ℕ)
    → (append sv pc rec now).0.entries ≡ pc.entries ++ next_entry sv pc rec ∷ []
unfolding append flush_batch
entries-append sv pc rec now = ground arith

-- Append keeps the chain verified and its indices in step, on every chain that has both.
pub append-IsChained :
    (sv : Services) (pc : ProofChain) (rec : AuditRecord) (now : ℕ)
    → IsChained sv pc
    → IsChained sv (append sv pc rec now).0
unfolding verify_chain next_entry
append-IsChained sv pc rec now c = record {
  verified =
      rw (entries-append sv pc rec now)
        (verify_from-snoc sv genesis pc.entries _ c.verified (hash_of_last-tip pc.entries) refl);
  indexed =
      rw (entries-append sv pc rec now) (IndexedFrom-snoc 0 pc.entries _ c.indexed (omega arith));
}

append_all-IsChained :
    (sv : Services) (pc : ProofChain) (recs : List (AuditRecord × ℕ))
    → IsChained sv pc
    → IsChained sv (append_all sv pc recs)
unfolding append_all
append_all-IsChained sv pc [] c = c
append_all-IsChained sv pc ((rec, now) ∷ recs) c =
    append_all-IsChained sv (append sv pc rec now).0 recs (append-IsChained sv pc rec now c)

new-IsChained : (sv : Services) (size : ℤ) (url : Text) → IsChained sv (new_proof_chain size url)
unfolding new_proof_chain verify_chain verify_from
new-IsChained sv size url = record { verified = refl; indexed = tt }

-- A chain that was filled by Append alone verifies, whatever the records and the publisher's
-- answers, and its entries are numbered from 0.
pub filled_chain_verifies :
    (sv : Services) (size : ℤ) (url : Text) (recs : List (AuditRecord × ℕ))
    → IsChained sv (append_all sv (new_proof_chain size url) recs)
filled_chain_verifies sv size url recs = append_all-IsChained sv _ recs (new-IsChained sv size url)
