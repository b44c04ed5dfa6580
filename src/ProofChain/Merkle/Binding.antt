-- ===== src/ProofChain/Merkle/Binding.antt =====
-- The Merkle root binds the chain hashes of a batch of known size.
use mathlib.Core.List.{append-nil}
use sentinel_protocol.Base.{
  ℕ, zero, suc, ◌%◌, ◌≡◌, refl, sym, ap, ap₂, ◌∙◌, ◌⊎◌, inl, inr, Option, none, some, List, [], ◌∷◌,
  ◌++◌, arith, ltb, ◌==◌, length, last?, All, All-append, Bool-cases, if_both, subst,
}
use sentinel_protocol.Text.{Text}
use sentinel_protocol.ProofChain.{
  ProofEntry, Services, repeat_last, pad_layer, pair_up, merkle_loop, leaves, first_hash,
  compute_merkle_root, hex_text,
}
use sentinel_protocol.ProofChain.Tamper.{Collision, same_or_Collision, hex_text-injective}
use sentinel_protocol.ProofChain.Merkle.{
  round, length-pad_layer, length-round, length-leaves, merkle_loop_more, merkle_loop_stop,
  merkle_loop_ends,
}

split_same {ℓ} :
    {A : Type ℓ} (a b s t : List A) → length a ≡ length b → a ++ s ≡ b ++ t → (a ≡ b) × (s ≡ t)
split_same [] [] s t n e = (refl, e)
split_same [] (c ∷ b) s t n e = absurd (omega arith)
split_same (c ∷ a) [] s t n e = absurd (omega arith)
split_same (c ∷ a) (d ∷ b) s t n e =
    let (same, rest) = split_same a b s t (omega arith) (cc) in (ap₂ ◌∷◌ (cc) same, rest)

-- Digests of SHA-256 are 32 bytes long.
abbrev pub IsDigest : Text → Type 0
IsDigest h = length h ≡ 32

abbrev pub HasDigests : Services → Type 0
HasDigests sv = (t : Text) → IsDigest (sv.sha256 t)

All-last? :
    (P : Text → Type 0) (hashes : List Text) (h : Text) → last? hashes ≡ some h → All P hashes → P h
All-last? P [] h e all = absurd (ground arith)
All-last? P (x ∷ []) h e all = subst P {x = x} {y = h} (cc) all.0
All-last? P (x ∷ y ∷ hashes) h e all = All-last? P (y ∷ hashes) h e all.1

-- What a layer is padded with.
abbrev Padded : List Text → List Text → Type 0
Padded hashes padded =
    (tail : List Text) × (padded ≡ hashes ++ tail) × (All IsDigest hashes → All IsDigest tail)

unpadded : (hashes : List Text) → Padded hashes hashes
unpadded hashes = ([], sym (append-nil hashes), λ h. tt)

repeat_last-Padded :
    (hashes : List Text) (o : Option Text) → last? hashes ≡ o → Padded hashes (repeat_last hashes o)
repeat_last-Padded hashes none e = unpadded hashes
repeat_last-Padded hashes (some h) e =
    (h ∷ [], refl, λ all. (All-last? IsDigest hashes h e all, tt))

padding : (hashes : List Text) → Padded hashes (pad_layer hashes)
unfolding pad_layer
padding hashes =
    if_both (Padded hashes) (length hashes % 2 == 0) _ _ (unpadded hashes)
      (repeat_last-Padded hashes (last? hashes) refl)

pad_layer-IsDigest : (hashes : List Text) → All IsDigest hashes → All IsDigest (pad_layer hashes)
pad_layer-IsDigest hashes h =
    let (tail, padded, digests) = padding hashes in
    rw padded (All-append IsDigest hashes tail h (digests h))

pad_layer-injective :
    (xs ys : List Text) → length xs ≡ length ys → pad_layer xs ≡ pad_layer ys → xs ≡ ys
pad_layer-injective xs ys n e =
    let (s, padded, _) = padding xs in
    let (t, padded', _) = padding ys in (split_same xs ys s t n (sym padded ∙ e ∙ padded')).0

pair_up-IsDigest :
    (sv : Services) (hashes : List Text) → HasDigests sv → All IsDigest (pair_up sv hashes)
unfolding pair_up
pair_up-IsDigest sv [] d = tt
pair_up-IsDigest sv (a ∷ []) d = tt
pair_up-IsDigest sv (a ∷ b ∷ hashes) d = (d (a ++ b), pair_up-IsDigest sv hashes d)

pair_up_binds :
    (sv : Services) (xs ys : List Text)
    → All IsDigest xs
    → All IsDigest ys
    → length xs % 2 ≡ 0
    → length xs ≡ length ys
    → pair_up sv xs ≡ pair_up sv ys
    → Collision sv.sha256 ⊎ (xs ≡ ys)
unfolding pair_up
pair_up_binds sv [] [] dx dy even n e = inr refl
pair_up_binds sv [] (c ∷ ys) dx dy even n e = absurd (omega arith)
pair_up_binds sv (a ∷ []) ys dx dy even n e = absurd (omega arith)
pair_up_binds sv (a ∷ b ∷ xs) [] dx dy even n e = absurd (omega arith)
pair_up_binds sv (a ∷ b ∷ xs) (c ∷ []) dx dy even n e = absurd (omega arith)
pair_up_binds sv (a ∷ b ∷ xs) (c ∷ d ∷ ys) (da, (db, dx)) (dc, (dd, dy)) even n e =
    elim (pair_up_binds sv xs ys dx dy (omega arith) (omega arith) (cc)) [
      | inl found ↦ inl found
      | inr rest ↦ elim (same_or_Collision sv.sha256 (a ++ b) (c ++ d) (cc)) [
        | inl found ↦ inl found
        | inr joined ↦
            let (first, second) = split_same a c b d (da ∙ sym dc) joined in
            inr (ap₂ ◌∷◌ first (ap₂ ◌∷◌ second rest))
      ]
    ]

round_binds :
    (sv : Services) (xs ys : List Text)
    → All IsDigest xs
    → All IsDigest ys
    → length xs ≡ length ys
    → round sv xs ≡ round sv ys
    → Collision sv.sha256 ⊎ (xs ≡ ys)
round_binds sv xs ys dx dy n e =
    elim (pair_up_binds sv (pad_layer xs) (pad_layer ys) (pad_layer-IsDigest xs dx)
      (pad_layer-IsDigest ys dy) (omega (arith, length-pad_layer xs))
      (omega (arith, length-pad_layer xs, length-pad_layer ys)) e) [
        | inl found ↦ inl found
        | inr same ↦ inr (pad_layer-injective xs ys n same)
      ]

merkle_loop_binds :
    (sv : Services) (fuel : ℕ) (xs ys : List Text)
    → HasDigests sv
    → All IsDigest xs
    → All IsDigest ys
    → length xs ≡ length ys
    → merkle_loop sv fuel xs ≡ merkle_loop sv fuel ys
    → Collision sv.sha256 ⊎ (xs ≡ ys)
unfolding merkle_loop
merkle_loop_binds sv zero xs ys d dx dy n e = inr e
merkle_loop_binds sv (suc fuel) xs ys d dx dy n e = elim (Bool-cases (ltb 1 (length xs))) [
  | inl more ↦
      elim (merkle_loop_binds sv fuel (round sv xs) (round sv ys) d
        (pair_up-IsDigest sv (pad_layer xs) d) (pair_up-IsDigest sv (pad_layer ys) d)
        (ground (arith, length-round sv xs, length-round sv ys))
        (sym (merkle_loop_more sv fuel xs (ground arith))
          ∙ e
          ∙ merkle_loop_more sv fuel ys (ground arith))) [
            | inl found ↦ inl found
            | inr same ↦ round_binds sv xs ys dx dy n same
          ]
  | inr few ↦ inr (
      sym (merkle_loop_stop sv (suc fuel) xs (ground arith))
      ∙ e
      ∙ merkle_loop_stop sv (suc fuel) ys (ground arith))
]

leaves-IsDigest :
    (sv : Services) (entries : List ProofEntry) → HasDigests sv → All IsDigest (leaves sv entries)
unfolding leaves
leaves-IsDigest sv [] d = tt
leaves-IsDigest sv (e ∷ entries) d = (d e.chain_hash, leaves-IsDigest sv entries d)

abbrev pub chain_hashes : List ProofEntry → List Text
chain_hashes [] = []
chain_hashes (e ∷ entries) = e.chain_hash ∷ chain_hashes entries

leaves_bind :
    (sv : Services) (xs ys : List ProofEntry)
    → leaves sv xs ≡ leaves sv ys
    → Collision sv.sha256 ⊎ (chain_hashes xs ≡ chain_hashes ys)
unfolding leaves
leaves_bind sv [] [] e = inr refl
leaves_bind sv [] (y ∷ ys) e = absurd (ground arith)
leaves_bind sv (x ∷ xs) [] e = absurd (ground arith)
leaves_bind sv (x ∷ xs) (y ∷ ys) e = elim (leaves_bind sv xs ys (cc)) [
  | inl found ↦ inl found
  | inr rest ↦ elim (same_or_Collision sv.sha256 x.chain_hash y.chain_hash (cc)) [
    | inl found ↦ inl found
    | inr same ↦ inr (ap₂ ◌∷◌ same rest)
  ]
]

one_hash :
    (xs ys : List Text) → length xs ≡ 1 → length ys ≡ 1 → first_hash xs ≡ first_hash ys → xs ≡ ys
one_hash [] ys n m e = absurd (omega arith)
one_hash (x ∷ xs) [] n m e = absurd (omega arith)
one_hash (x ∷ []) (y ∷ []) n m e = ap (λ (t : Text). t ∷ []) e
one_hash (x ∷ z ∷ xs) (y ∷ ys) n m e = absurd (omega arith)
one_hash (x ∷ []) (y ∷ z ∷ ys) n m e = absurd (omega arith)

-- Two batches of one size with one Merkle root have the same chain hashes in the same order, or two
-- texts with one SHA-256 digest are at hand. Digests are 32 bytes long.
pub merkle_root_binds :
    (sv : Services) (xs ys : List ProofEntry)
    → HasDigests sv
    → length xs ≡ length ys
    → compute_merkle_root sv xs ≡ compute_merkle_root sv ys
    → Collision sv.sha256 ⊎ (chain_hashes xs ≡ chain_hashes ys)
unfolding compute_merkle_root
merkle_root_binds sv [] [] d n e = inr refl
merkle_root_binds sv [] (y ∷ ys) d n e = absurd (omega arith)
merkle_root_binds sv (x ∷ xs) [] d n e = absurd (omega arith)
merkle_root_binds sv (x ∷ xs) (y ∷ ys) d n e =
    let hs = leaves sv (x ∷ xs) in
    let ks = leaves sv (y ∷ ys) in
    let nx = length-leaves sv (x ∷ xs) in
    let ny = length-leaves sv (y ∷ ys) in
    let same_size : length hs ≡ length ks = nx ∙ n ∙ sym ny in
    let loops : merkle_loop sv (length hs) hs ≡ merkle_loop sv (length hs) ks =
      one_hash _ _ (merkle_loop_ends sv (length hs) hs (omega arith) (omega arith))
        (merkle_loop_ends sv (length hs) ks (omega arith) (omega arith))
        (hex_text-injective _ _
          (e ∙ ap (λ m. hex_text (first_hash (merkle_loop sv m ks))) (sym same_size))) in
    elim (merkle_loop_binds sv (length hs) hs ks d (leaves-IsDigest sv (x ∷ xs) d)
      (leaves-IsDigest sv (y ∷ ys) d) same_size loops) [
        | inl found ↦ inl found
        | inr same ↦ leaves_bind sv (x ∷ xs) (y ∷ ys) same
      ]
