-- ===== src/ProofChain/Merkle.antt =====
-- The Merkle root of a batch: the loop that builds it ends with one hash, and the root binds the
-- chain hashes of a batch of known size.
pub mod Binding
pub mod Repeats
use mathlib.Core.List.{append_assoc, append-nil}
use sentinel_protocol.Base.{
  ℕ, zero, suc, ◌+◌, ◌-◌, ◌*◌, ◌/◌, ◌%◌, ◌≤◌, ◌<◌, ◌≡◌, refl, sym, ap, ap₂, ◌∙◌, ◌⊎◌, inl, inr,
  Bool, true, false, Option, none, some, List, [], ◌∷◌, ◌++◌, arith, if◌then◌else◌, ltb, ◌==◌,
  length, length-append, last?, last?-append, All, All-append, Bool-cases, if_both, subst,
}
use sentinel_protocol.Text.{Text}
use sentinel_protocol.ProofChain.{
  ProofEntry, Services, repeat_last, pad_layer, pair_up, merkle_loop, leaves, first_hash,
  compute_merkle_root, hex_text,
}
use sentinel_protocol.ProofChain.Tamper.{Collision, same_or_Collision, hex_text-injective}

last?-found : (x : Text) (hashes : List Text) → (h : Text) × (last? (x ∷ hashes) ≡ some h)
last?-found x [] = (x, refl)
last?-found x (y ∷ hashes) = last?-found y hashes

length-repeat_last :
    (x : Text) (hashes : List Text)
    → length (repeat_last (x ∷ hashes) (last? (x ∷ hashes))) ≡ length hashes + 2
length-repeat_last x hashes =
    let (h, found) = last?-found x hashes in
    rw found (omega (arith, length-append (x ∷ hashes) (h ∷ [])))

-- A layer that is padded is even.

pub length-pad_layer :
    (hashes : List Text) → length (pad_layer hashes) ≡ length hashes + length hashes % 2
unfolding pad_layer
length-pad_layer [] = refl
length-pad_layer (x ∷ hashes) = elim (Bool-cases (length (x ∷ hashes) % 2 == 0)) [
  | inl even ↦ rw even (ground arith)
  | inr odd ↦ rw odd (ground (arith, length-repeat_last x hashes))
]

length-pair_up :
    (sv : Services) (hashes : List Text) → length (pair_up sv hashes) ≡ length hashes / 2
unfolding pair_up
length-pair_up sv [] = refl
length-pair_up sv (a ∷ []) = refl
length-pair_up sv (a ∷ b ∷ hashes) = omega (arith, length-pair_up sv hashes)

-- One round of the loop.
abbrev pub round : Services → List Text → List Text
round sv hashes = pair_up sv (pad_layer hashes)

pub length-round :
    (sv : Services) (hashes : List Text) → length (round sv hashes) ≡ (length hashes + 1) / 2
length-round sv hashes =
    omega (arith, length-pair_up sv (pad_layer hashes), length-pad_layer hashes)

pub merkle_loop_more :
    (sv : Services) (fuel : ℕ) (hashes : List Text)
    → 1 < length hashes
    → merkle_loop sv (suc fuel) hashes ≡ merkle_loop sv fuel (round sv hashes)
unfolding merkle_loop
merkle_loop_more sv fuel hashes more =
    let test : ltb 1 (length hashes) ≡ true = ground arith in rw (test, merkle_loop) refl

pub merkle_loop_stop :
    (sv : Services) (fuel : ℕ) (hashes : List Text)
    → length hashes ≤ 1
    → merkle_loop sv fuel hashes ≡ hashes
unfolding merkle_loop
merkle_loop_stop sv zero hashes few = refl
merkle_loop_stop sv (suc fuel) hashes few =
    let test : ltb 1 (length hashes) ≡ false = ground arith in rw (test, merkle_loop) refl

-- The loop ends: with at least one hash, and as many rounds allowed as there are hashes, exactly one
-- hash is left.
pub merkle_loop_ends :
    (sv : Services) (fuel : ℕ) (hashes : List Text)
    → 0 < length hashes
    → length hashes ≤ fuel
    → length (merkle_loop sv fuel hashes) ≡ 1
merkle_loop_ends sv zero hashes some_left enough = absurd (omega arith)
merkle_loop_ends sv (suc fuel) hashes some_left enough = elim (Bool-cases (ltb 1 (length hashes))) [
  | inl more ↦ rw (merkle_loop_more sv fuel hashes (ground arith)) (
      merkle_loop_ends sv fuel (round sv hashes) (ground (arith, length-round sv hashes))
        (ground (arith, length-round sv hashes)))
  | inr few ↦ rw (merkle_loop_stop sv (suc fuel) hashes (ground arith)) (ground arith)
]

pub merkle_loop_fuel :
    (sv : Services) (fuel fuel' : ℕ) (hashes : List Text)
    → 0 < length hashes
    → length hashes ≤ fuel
    → length hashes ≤ fuel'
    → merkle_loop sv fuel hashes ≡ merkle_loop sv fuel' hashes
merkle_loop_fuel sv zero fuel' hashes some_left e f = absurd (omega arith)
merkle_loop_fuel sv (suc fuel) zero hashes some_left e f = absurd (omega arith)
merkle_loop_fuel sv (suc fuel) (suc fuel') hashes some_left e f =
    elim (Bool-cases (ltb 1 (length hashes))) [
      | inl more ↦
          rw
            (
              merkle_loop_more sv fuel hashes (ground arith),
              merkle_loop_more sv fuel' hashes (ground arith),
            )
            (merkle_loop_fuel sv fuel fuel' (round sv hashes)
              (ground (arith, length-round sv hashes)) (ground (arith, length-round sv hashes))
              (ground (arith, length-round sv hashes)))
      | inr few ↦
          rw
            (
              merkle_loop_stop sv (suc fuel) hashes (ground arith),
              merkle_loop_stop sv (suc fuel') hashes (ground arith),
            )
            refl
    ]

pub length-leaves :
    (sv : Services) (entries : List ProofEntry) → length (leaves sv entries) ≡ length entries
unfolding leaves
length-leaves sv [] = refl
length-leaves sv (e ∷ entries) = omega (arith, length-leaves sv entries)
