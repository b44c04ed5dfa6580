-- ===== src/Tests/Chains.antt =====
-- The proof chain, at concrete records.
use sentinel_protocol.Base.{
  ℕ, zero, suc, ◌<◌, ◌≡◌, ◌⊎◌, refl, true, List, [], ◌∷◌, ◌++◌, pos, arith, length, All,
}
use sentinel_protocol.Text.{Text}
use sentinel_protocol.Guard.Config.{AuditRecord, RecordDecision, blocked, allowed}
use sentinel_protocol.ProofChain.{
  ProofEntry, ProofChain, new_proof_chain, append_all, compute_merkle_root, verify_chain,
  merkle_loop, leaves,
}
use sentinel_protocol.ProofChain.Chain.{filled_chain_verifies}
use sentinel_protocol.ProofChain.Tamper.{
  Collision, HasBytes, committed, verified_chain_binds, relabel, verify_chain_ignores_labels,
}
use sentinel_protocol.ProofChain.Merkle.{merkle_loop_ends}
use sentinel_protocol.ProofChain.Merkle.Binding.{HasDigests, chain_hashes, merkle_root_binds}
use sentinel_protocol.ProofChain.Merkle.Repeats.{merkle_root_repeats}
use sentinel_protocol.Tests.Fixtures.{ls, pay, agent, services, record_of, zeros}

abbrev records : List (AuditRecord × ℕ)
records = (record_of ls, 1) ∷ (record_of pay, 2) ∷ (record_of agent, 3) ∷ []

abbrev chain : ProofChain
chain = append_all services (new_proof_chain (pos 2) ls) records

zeros_lem : (n : ℕ) → All (λ b. b < 256) (zeros n)
zeros_lem zero = tt
zeros_lem (suc n) = (omega arith, zeros_lem n)

zeros_are_bytes : HasBytes services
zeros_are_bytes t = (omega arith, zeros_lem 31)

chain_verifies : verify_chain services chain ≡ true
chain_verifies = (filled_chain_verifies services (pos 2) ls records).verified

verified_chain_binds_example :
    Collision services.sha256 ⊎ (committed chain.entries ≡ committed chain.entries)
verified_chain_binds_example =
    verified_chain_binds services chain chain zeros_are_bytes chain_verifies chain_verifies refl
      refl

-- Another time, action and decision on every entry.
abbrev other_labels : ProofEntry → ℕ × (Text × RecordDecision)
other_labels e = (9, (pay, blocked))

verify_chain_ignores_labels_example :
    verify_chain services (record chain { entries = relabel other_labels chain.entries })
    ≡ verify_chain services chain
verify_chain_ignores_labels_example = verify_chain_ignores_labels services other_labels chain

merkle_loop_ends_example : length (merkle_loop services 3 (ls ∷ pay ∷ agent ∷ [])) ≡ 1
merkle_loop_ends_example =
    merkle_loop_ends services 3 (ls ∷ pay ∷ agent ∷ []) (omega arith) (omega arith)

abbrev entry_of : ℕ → Text → ProofEntry
entry_of i h = record {
  index = i;
  record_hash = h;
  prev_hash = h;
  chain_hash = h;
  timestamp = i;
  action = ls;
  decision = allowed;
}

digests_have_32_bytes : HasDigests services
digests_have_32_bytes t = refl

same_root :
    compute_merkle_root services (entry_of 0 ls ∷ entry_of 1 pay ∷ [])
    ≡ compute_merkle_root services (entry_of 5 ls ∷ entry_of 6 pay ∷ [])
unfolding compute_merkle_root leaves
same_root = refl

merkle_root_binds_example :
    Collision services.sha256
    ⊎ (chain_hashes (entry_of 0 ls ∷ entry_of 1 pay ∷ [])
        ≡ chain_hashes (entry_of 5 ls ∷ entry_of 6 pay ∷ []))
merkle_root_binds_example =
    merkle_root_binds services (entry_of 0 ls ∷ entry_of 1 pay ∷ [])
      (entry_of 5 ls ∷ entry_of 6 pay ∷ []) digests_have_32_bytes refl same_root

merkle_root_repeats_example :
    compute_merkle_root services ((entry_of 0 ls ∷ entry_of 1 pay ∷ []) ++ entry_of 2 agent ∷ [])
    ≡ compute_merkle_root services
        (((entry_of 0 ls ∷ entry_of 1 pay ∷ []) ++ entry_of 2 agent ∷ []) ++ entry_of 2 agent ∷ [])
merkle_root_repeats_example =
    merkle_root_repeats services (entry_of 0 ls ∷ entry_of 1 pay ∷ []) (entry_of 2 agent) refl
      (omega arith)
