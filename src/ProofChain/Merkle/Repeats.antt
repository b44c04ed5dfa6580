-- ===== src/ProofChain/Merkle/Repeats.antt =====
-- The Merkle root does not bind the size of a batch: an odd layer repeats its last hash.
use sentinel_protocol.Base.{
  ℕ, zero, suc, ◌+◌, ◌%◌, ◌<◌, ◌≡◌, refl, sym, ap, ◌∙◌, true, false, List, [], ◌∷◌, ◌++◌, arith,
  ◌==◌, length, length-append, last?-append,
}
use sentinel_protocol.Text.{Text}
use sentinel_protocol.ProofChain.{
  ProofEntry, Services, pad_layer, pair_up, merkle_loop, leaves, first_hash, compute_merkle_root,
  hex_text,
}
use sentinel_protocol.ProofChain.Merkle.{
  round, length-leaves, merkle_loop_more, merkle_loop_fuel, length-round,
}

leaves-snoc :
    (sv : Services) (entries : List ProofEntry) (e : ProofEntry)
    → leaves sv (entries ++ e ∷ []) ≡ leaves sv entries ++ sv.sha256 e.chain_hash ∷ []
unfolding leaves
leaves-snoc sv [] e = refl
leaves-snoc sv (x ∷ entries) e =
    ap (λ (hs : List Text). sv.sha256 x.chain_hash ∷ hs) (leaves-snoc sv entries e)

pad_even : (hashes : List Text) → length hashes % 2 ≡ 0 → pad_layer hashes ≡ hashes
unfolding pad_layer
pad_even hashes even = let test : (length hashes % 2 == 0) ≡ true = ground arith in rw test refl

pad_odd :
    (hashes : List Text) (h : Text)
    → length hashes % 2 ≡ 0
    → pad_layer (hashes ++ h ∷ []) ≡ (hashes ++ h ∷ []) ++ h ∷ []
unfolding pad_layer
pad_odd hashes h even =
    let test : (length (hashes ++ h ∷ []) % 2 == 0) ≡ false =
      ground (arith, length-append hashes (h ∷ [])) in
    rw (test, last?-append hashes h) refl

round_repeats :
    (sv : Services) (hashes : List Text) (h : Text)
    → length hashes % 2 ≡ 0
    → round sv (hashes ++ h ∷ []) ≡ round sv ((hashes ++ h ∷ []) ++ h ∷ [])
round_repeats sv hashes h even = ap (pair_up sv) (
    pad_odd hashes h even
    ∙ sym (
        pad_even ((hashes ++ h ∷ []) ++ h ∷ []) (
          omega (arith, length-append (hashes ++ h ∷ []) (h ∷ []), length-append hashes (h ∷ [])))))

root_of_loop :
    (sv : Services) (entries : List ProofEntry)
    → 0 < length entries
    → compute_merkle_root sv entries
      ≡ hex_text (first_hash (merkle_loop sv (length (leaves sv entries)) (leaves sv entries)))
unfolding compute_merkle_root
root_of_loop sv [] h = absurd (omega arith)
root_of_loop sv (e ∷ entries) h = refl

-- The loops on an odd layer of at least three hashes and on the layer with its last hash repeated
-- agree, each on enough fuel.
loop_repeats :
    (sv : Services) (hashes : List Text) (h : Text) (n m : ℕ)
    → length hashes % 2 ≡ 0
    → 0 < length hashes
    → n ≡ length hashes + 1
    → m ≡ length hashes + 2
    → merkle_loop sv n (hashes ++ h ∷ []) ≡ merkle_loop sv m ((hashes ++ h ∷ []) ++ h ∷ [])
loop_repeats sv hashes h zero m even some_left en em = absurd (omega arith)
loop_repeats sv hashes h (suc n) zero even some_left en em = absurd (omega arith)
loop_repeats sv hashes h (suc n) (suc m) even some_left en em =
    let once = length-append hashes (h ∷ []) in
    let twice = length-append (hashes ++ h ∷ []) (h ∷ []) in
    let size = length-round sv (hashes ++ h ∷ []) in
    merkle_loop_more sv n (hashes ++ h ∷ []) (omega arith)
    ∙ merkle_loop_fuel sv n m (round sv (hashes ++ h ∷ [])) (omega arith) (omega arith)
        (omega arith)
    ∙ ap (merkle_loop sv m) (round_repeats sv hashes h even)
    ∙ sym (merkle_loop_more sv m ((hashes ++ h ∷ []) ++ h ∷ []) (omega arith))

-- A batch of an odd number of entries, three or more, has the Merkle root of the batch in which its
-- last entry stands twice.
pub merkle_root_repeats :
    (sv : Services) (entries : List ProofEntry) (e : ProofEntry)
    → length entries % 2 ≡ 0
    → 0 < length entries
    → compute_merkle_root sv (entries ++ e ∷ [])
      ≡ compute_merkle_root sv ((entries ++ e ∷ []) ++ e ∷ [])
merkle_root_repeats sv entries e even some_left =
    let h = sv.sha256 e.chain_hash in
    let once = length-append entries (e ∷ []) in
    let twice = length-append (entries ++ e ∷ []) (e ∷ []) in
    let size = length-leaves sv entries in
    let size1 = length-leaves sv (entries ++ e ∷ []) in
    let size2 = length-leaves sv ((entries ++ e ∷ []) ++ e ∷ []) in
    let one : leaves sv (entries ++ e ∷ []) ≡ leaves sv entries ++ h ∷ [] =
      leaves-snoc sv entries e in
    let two : leaves sv ((entries ++ e ∷ []) ++ e ∷ []) ≡ (leaves sv entries ++ h ∷ []) ++ h ∷ [] =
      leaves-snoc sv (entries ++ e ∷ []) e ∙ ap (λ (hs : List Text). hs ++ h ∷ []) one in
    root_of_loop sv (entries ++ e ∷ []) (omega arith)
    ∙ ap (λ t. hex_text (first_hash t))
        (ap (merkle_loop sv (length (leaves sv (entries ++ e ∷ [])))) one
          ∙ loop_repeats sv (leaves sv entries) h _ _ (omega arith) (omega arith) (omega arith)
              (omega arith)
          ∙ ap (merkle_loop sv (length (leaves sv ((entries ++ e ∷ []) ++ e ∷ [])))) (sym two))
    ∙ sym (root_of_loop sv ((entries ++ e ∷ []) ++ e ∷ []) (omega arith))
