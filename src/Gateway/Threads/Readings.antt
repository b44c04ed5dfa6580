-- ===== src/Gateway/Threads/Readings.antt =====
-- What a handler has read of the proof chain, and what later appends leave of it.
use sentinel_protocol.Base.{
  ℕ, ◌+◌, ◌≤◌, ◌≡◌, refl, ◌∙◌, true, Bool, Option, none, some, List, [], ◌∷◌, ◌++◌, length,
  length-append, last?, arith, ap,
}
use sentinel_protocol.Guard.Config.{AuditRecord}
use sentinel_protocol.ProofChain.{
  Services, ProofChain, ProofEntry, append, append_all, get_latest_proof,
}
use sentinel_protocol.ProofChain.Chain.{IndexedFrom, IsChained, entries-append}
use sentinel_protocol.Gateway.{SentinelGateway, World, Body, proven, reported}
use sentinel_protocol.Gateway.Runs.{Runs}
use sentinel_protocol.Gateway.Threads.{
  Pc, proof_counted, proof_verified, proof_found, status_counted, status_verified, done,
}
use sentinel_protocol.Gateway.Threads.Facts.{StandsIn, append_all-StandsIn}

-- What a handler has read of the chain.
pub data Reading : Type 0 where
  unread : Reading
  counts : ℕ → Reading
  checks : ℕ → Bool → Reading
  finds : ℕ → Bool → Option ProofEntry → Reading

abbrev pub reading_in : Body → Reading
reading_in (proven p) = finds p.chain_length p.chain_valid p.latest_proof
reading_in (reported s) = checks s.proof_chain_length s.proof_chain_valid
reading_in _ = unread

abbrev pub reading_of : Pc → Reading
reading_of (proof_counted d n) = counts n
reading_of (proof_verified d n b) = checks n b
reading_of (proof_found d n b p) = finds n b p
reading_of (status_counted d ks n m) = counts m
reading_of (status_verified d ks n m b) = checks m b
reading_of (done d r) = reading_in r.body
reading_of _ = unread

-- The entry is in the chain, and no fewer than `n` entries stand up to it; none is found only if
-- none was counted.
abbrev pub IsLatest : List ProofEntry → ℕ → Option ProofEntry → Type 0
IsLatest entries n none = n ≡ 0
IsLatest entries n (some e) = StandsIn entries e × (n ≤ e.index + 1)

abbrev pub Agrees : SentinelGateway → Reading → Type 0
Agrees gw unread = Unit {0}
Agrees gw (counts n) = n ≤ length gw.proof.entries
Agrees gw (checks n b) = (n ≤ length gw.proof.entries) × (b ≡ true)
Agrees gw (finds n b p) = (n ≤ length gw.proof.entries) × (b ≡ true) × IsLatest gw.proof.entries n p

length-append_all :
    (sv : Services) (pc : ProofChain) (recs : List (AuditRecord × ℕ))
    → length pc.entries ≤ length (append_all sv pc recs).entries
unfolding append_all
length-append_all sv pc [] = omega arith
length-append_all sv pc ((rec, now) ∷ recs) =
    let more = length-append_all sv (append sv pc rec now).0 recs in
    let one : length (append sv pc rec now).0.entries ≡ length pc.entries + 1 =
      ap length (entries-append sv pc rec now) ∙ length-append pc.entries _ in
    omega arith

Runs-counted :
    (w : World) (gw gw' : SentinelGateway) (n : ℕ)
    → Runs w gw gw'
    → n ≤ length gw.proof.entries
    → n ≤ length gw'.proof.entries
Runs-counted w gw gw' n runs le =
    let more = length-append_all w.services gw.proof runs.records in rw runs.proof_run (omega arith)

pub Runs-Agrees :
    (w : World) (gw gw' : SentinelGateway) (r : Reading)
    → Runs w gw gw'
    → Agrees gw r
    → Agrees gw' r
Runs-Agrees w gw gw' unread runs h = tt
Runs-Agrees w gw gw' (counts n) runs h = Runs-counted w gw gw' n runs h
Runs-Agrees w gw gw' (checks n b) runs (le, valid) = (Runs-counted w gw gw' n runs le, valid)
Runs-Agrees w gw gw' (finds n b none) runs (le, valid, at) =
    (Runs-counted w gw gw' n runs le, valid, at)
Runs-Agrees w gw gw' (finds n b (some e)) runs (le, valid, (stands, at)) = (
  Runs-counted w gw gw' n runs le,
  valid,
  (rw runs.proof_run (append_all-StandsIn w.services gw.proof runs.records e stands), at),
)

last_none : (entries : List ProofEntry) → last? entries ≡ none → length entries ≡ 0
last_none [] h = refl
last_none (x ∷ []) h = absurd (ground (arith, h))
last_none (x ∷ y ∷ entries) h =
    let none_there = last_none (y ∷ entries) h in absurd (ground (arith, none_there))

-- The last entry ends the chain, and its index counts the entries before it.
last_stands :
    (k : ℕ) (entries : List ProofEntry) (e : ProofEntry)
    → IndexedFrom k entries
    → last? entries ≡ some e
    → (before : List ProofEntry) × (entries ≡ before ++ e ∷ [])
      × (k + length before ≡ e.index)
      × (k + length entries ≡ e.index + 1)
last_stands k [] e h at = absurd (ground (arith, at))
last_stands k (x ∷ []) e (i, _) at =
    let same : x ≡ e = ground (arith, at) in
    ([], ap (λ (y : ProofEntry). y ∷ []) same, ground (arith, i, same), ground (arith, i, same))
last_stands k (x ∷ y ∷ entries) e (i, rest) at =
    let (before, split, index, total) = last_stands (k + 1) (y ∷ entries) e rest at in
    (x ∷ before, ap (λ (es : List ProofEntry). x ∷ es) split, omega arith, omega arith)

pub get_latest_proof-IsLatest :
    (sv : Services) (pc : ProofChain) (n : ℕ)
    → IsChained sv pc
    → n ≤ length pc.entries
    → IsLatest pc.entries n (get_latest_proof pc)
unfolding get_latest_proof
get_latest_proof-IsLatest sv pc n chained le =
    elim (last? pc.entries) as (λ o. (last? pc.entries ≡ o) → IsLatest pc.entries n o) [
      | none ↦ λ at. let empty = last_none pc.entries at in omega arith
      | some e ↦ λ at.
          let (before, split, index, total) = last_stands 0 pc.entries e chained.indexed at in
          ((before, [], split, omega arith), omega arith)
    ]
      refl
