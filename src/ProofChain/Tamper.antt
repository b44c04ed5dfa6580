-- ===== src/ProofChain/Tamper.antt =====
-- The chain is tamper-evident: two chains that verify and end in the same hash have the same
-- records, or a collision of SHA-256 is at hand.
use sentinel_protocol.Base.{
  ℕ, ◌<◌, ◌≡◌, refl, sym, ap₂, ◌∙◌, ◌≢◌, ◌⊎◌, inl, inr, true, List, [], ◌∷◌, ◌++◌, arith, length,
  All, subst,
}
use sentinel_protocol.Text.{Text, Text-discrete, text, decimal}
use sentinel_protocol.Text.Encoding.{
  NoBar, decimal-NoBar, decimal-injective, hex_encode-injective, hex_encode-NoBar,
}
use sentinel_protocol.Guard.Config.{RecordDecision}
use sentinel_protocol.ProofChain.{
  ProofEntry, ProofChain, Services, genesis, chain_data, hex_text, compute_chain_hash, verify_from,
  verify_chain,
}
use sentinel_protocol.ProofChain.Chain.{tip}

-- Two texts with one digest.
abbrev pub Collision : (Text → Text) → Type 0
Collision h = (a : Text) × (b : Text) × (a ≢ b) × (h a ≡ h b)

pub same_or_Collision : (h : Text → Text) (a b : Text) → h a ≡ h b → Collision h ⊎ (a ≡ b)
same_or_Collision h a b e = elim (Text-discrete a b) [
  | yes same ↦ inr same
  | no apart ↦ inl (a, b, apart, e)
]

pub hex_text-injective : (s t : Text) → hex_text s ≡ hex_text t → s ≡ t
unfolding hex_text text
hex_text-injective s t e = hex_encode-injective s t (cc)

hex_text-NoBar : (s : Text) → All (λ b. b < 256) s → NoBar (hex_text s)
unfolding hex_text text
hex_text-NoBar s h = ((λ e. omega arith), ((λ e. omega arith), hex_encode-NoBar s h))

pub genesis-NoBar : NoBar genesis
unfolding genesis text
genesis-NoBar = omega arith

abbrev bar : List ℕ
bar = b'|' ∷ []

-- The part before the first bar is determined.
split_first :
    (a b s t : List ℕ) → NoBar a → NoBar b → a ++ (bar ++ s) ≡ b ++ (bar ++ t) → (a ≡ b) × (s ≡ t)
split_first [] [] s t h k e = (refl, cc)
split_first [] (c ∷ b) s t h k e = absurd (k.0 (cc))
split_first (c ∷ a) [] s t h k e = absurd (h.0 (cc))
split_first (c ∷ a) (d ∷ b) s t h k e =
    let (same, rest) = split_first a b s t h.1 k.1 (cc) in (ap₂ ◌∷◌ (cc) same, rest)

NoBar-inside : (s t : List ℕ) → NoBar (s ++ (bar ++ t)) → ⊥
NoBar-inside [] t h = h.0 refl
NoBar-inside (c ∷ s) t h = NoBar-inside s t h.1

-- The part behind the last bar is determined.
split_last :
    (s t a b : List ℕ) → NoBar a → NoBar b → s ++ (bar ++ a) ≡ t ++ (bar ++ b) → (s ≡ t) × (a ≡ b)
split_last [] [] a b h k e = (refl, cc)
split_last [] (c ∷ t) a b h k e =
    absurd (NoBar-inside t b (subst NoBar {x = a} {y = t ++ (bar ++ b)} (cc) h))
split_last (c ∷ s) [] a b h k e =
    absurd (NoBar-inside s a (subst NoBar {x = b} {y = s ++ (bar ++ a)} (cc) k))
split_last (c ∷ s) (d ∷ t) a b h k e =
    let (same, rest) = split_last s t a b h k (cc) in (ap₂ ◌∷◌ (cc) same, rest)

-- What is hashed determines the index, the record hash and the previous hash, even where a record
-- hash has bars in it.
pub chain_data-injective :
    (i j : ℕ) (r s p q : Text)
    → NoBar p
    → NoBar q
    → chain_data i r p ≡ chain_data j s q
    → (i ≡ j) × (r ≡ s) × (p ≡ q)
unfolding chain_data text
chain_data-injective i j r s p q h k e =
    let (digits, rest) =
      split_first (decimal i) (decimal j) _ _ (decimal-NoBar i) (decimal-NoBar j) e in
    let (records, prevs) = split_last r s p q h k rest in
    (decimal-injective i j digits, records, prevs)

-- What VerifyChain protects of an entry.
abbrev pub committed : List ProofEntry → List (ℕ × Text)
committed [] = []
committed (e ∷ entries) = (e.index, e.record_hash) ∷ committed entries

-- Digests are texts of bytes.
abbrev pub HasBytes : Services → Type 0
HasBytes sv = (t : Text) → All (λ b. b < 256) (sv.sha256 t)

verify_from-cons :
    (sv : Services) (p : Text) (e : ProofEntry) (entries : List ProofEntry)
    → verify_from sv p (e ∷ entries) ≡ true
    → (e.prev_hash ≡ p)
      × ((e.chain_hash ≡ compute_chain_hash sv e.index e.record_hash p)
          × (verify_from sv e.chain_hash entries ≡ true))
unfolding verify_from
verify_from-cons sv p e entries v = ground arith

-- The chain hash of an entry that verifies is a hex text.
chain_hash-NoBar :
    (sv : Services) (c : Text) (i : ℕ) (r p : Text)
    → HasBytes sv
    → c ≡ compute_chain_hash sv i r p
    → NoBar c
unfolding compute_chain_hash
chain_hash-NoBar sv c i r p h e = subst NoBar (sym e) (hex_text-NoBar _ (h _))

-- Two entries with one chain hash have one index, record hash and previous hash.
agree_at :
    (sv : Services) (i j : ℕ) (r s p q : Text)
    → NoBar p
    → NoBar q
    → compute_chain_hash sv i r p ≡ compute_chain_hash sv j s q
    → Collision sv.sha256 ⊎ ((p ≡ q) × (◌≡◌ {A = ℕ × Text} (i, r) (j, s)))
unfolding compute_chain_hash
agree_at sv i j r s p q h k e = elim (same_or_Collision sv.sha256 _ _ (hex_text-injective _ _ e)) [
  | inl found ↦ inl found
  | inr same ↦
      let (index, record_hash, prev) = chain_data-injective i j r s p q h k same in
      inr (prev, ap₂ (λ (m : ℕ) (t : Text). (m, t)) index record_hash)
]

-- Two verified runs of entries with one length and one final hash start at one hash.
agree_from :
    (sv : Services) (p q : Text) (xs ys : List ProofEntry)
    → HasBytes sv
    → NoBar p
    → NoBar q
    → verify_from sv p xs ≡ true
    → verify_from sv q ys ≡ true
    → length xs ≡ length ys
    → tip p xs ≡ tip q ys
    → Collision sv.sha256 ⊎ ((p ≡ q) × (committed xs ≡ committed ys))
agree_from sv p q [] [] b h k v w n e = inr (e, refl)
agree_from sv p q [] (y ∷ ys) b h k v w n e = absurd (omega arith)
agree_from sv p q (x ∷ xs) [] b h k v w n e = absurd (omega arith)
agree_from sv p q (x ∷ xs) (y ∷ ys) b h k v w n e =
    let (_, (cx, vx)) = verify_from-cons sv p x xs v in
    let (_, (cy, vy)) = verify_from-cons sv q y ys w in
    elim (agree_from sv x.chain_hash y.chain_hash xs ys b
      (chain_hash-NoBar sv _ x.index x.record_hash p b cx)
      (chain_hash-NoBar sv _ y.index y.record_hash q b cy) vx vy (omega arith) e) [
        | inl found ↦ inl found
        | inr (chained, rest) ↦
            elim (agree_at sv x.index y.index x.record_hash y.record_hash p q h k
              (sym cx ∙ chained ∙ cy)) [
                | inl found ↦ inl found
                | inr (prev, here) ↦ inr (prev, ap₂ ◌∷◌ here rest)
              ]
      ]

-- Two chains that verify, are of one length and end in one hash hold the same indices and record
-- hashes in the same order, or two texts with one SHA-256 digest are at hand. Digests are texts of
-- bytes.
pub verified_chain_binds :
    (sv : Services) (pc qc : ProofChain)
    → HasBytes sv
    → verify_chain sv pc ≡ true
    → verify_chain sv qc ≡ true
    → length pc.entries ≡ length qc.entries
    → tip genesis pc.entries ≡ tip genesis qc.entries
    → Collision sv.sha256 ⊎ (committed pc.entries ≡ committed qc.entries)
unfolding verify_chain
verified_chain_binds sv pc qc b v w n e =
    elim (agree_from sv genesis genesis pc.entries qc.entries b genesis-NoBar genesis-NoBar v w n
      e) [ inl found ↦ inl found | inr (_, same) ↦ inr same ]

-- The fields that no hash covers.
abbrev pub relabel : (ProofEntry → ℕ × (Text × RecordDecision)) → List ProofEntry → List ProofEntry
relabel f [] = []
relabel f (e ∷ entries) =
    let (when, (what, how)) = f e in
    record e { timestamp = when; action = what; decision = how } ∷ relabel f entries

relabel_from :
    (sv : Services) (f : ProofEntry → ℕ × (Text × RecordDecision)) (p : Text)
    (entries : List ProofEntry)
    → verify_from sv p (relabel f entries) ≡ verify_from sv p entries
unfolding verify_from
relabel_from sv f p [] = refl
relabel_from sv f p (e ∷ entries) = rw (relabel_from sv f e.chain_hash entries) refl

-- VerifyChain gives the same answer after any rewrite of the timestamps, actions and decisions of
-- the entries: no link covers them.
pub verify_chain_ignores_labels :
    (sv : Services) (f : ProofEntry → ℕ × (Text × RecordDecision)) (pc : ProofChain)
    → verify_chain sv (record pc { entries = relabel f pc.entries }) ≡ verify_chain sv pc
unfolding verify_chain
verify_chain_ignores_labels sv f pc = relabel_from sv f genesis pc.entries
