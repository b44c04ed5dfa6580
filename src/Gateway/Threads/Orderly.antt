-- ===== src/Gateway/Threads/Orderly.antt =====
-- The challenges and the handlers that decided them: what a move keeps of both.
use sentinel_protocol.Base.{
  ℕ, ◌≡◌, refl, sym, ◌∙◌, ◌⊎◌, inl, inr, Bool, true, false, some, arith, ℕ_discrete, ap, subst, ok,
  err, if_both,
}
use sentinel_protocol.Text.{Text}
use sentinel_protocol.Approval.{
  ApprovalChallenge, ApprovalService, approved, rejected, confirm, is_pending, Call, step,
}
use sentinel_protocol.Approval.Final.{challenge_at, LeavesFree, step-Follows}
use sentinel_protocol.Approval.Expiry.{confirm_in_time}
use sentinel_protocol.Approval.Keys.{IsKeyed, challenge_at-IsKeyed, confirm-IsKeyed, IsThere}
use sentinel_protocol.Gateway.{World, Draws}
use sentinel_protocol.Gateway.Threads.{Pc, System, update, Step}
use sentinel_protocol.Gateway.Threads.Apart.{update_draws, Step-draws}
use sentinel_protocol.Gateway.Threads.Challenges.{decided_by, is_done, decided_as}
use sentinel_protocol.Gateway.Threads.Effects.{draws_of}

-- No two handlers draw the same identifier for a challenge.
abbrev pub AskApart : (ℕ → Pc) → Type 0
AskApart threads =
    (i j : ℕ) (d e : Draws)
    → draws_of (threads i) ≡ some d
    → draws_of (threads j) ≡ some e
    → d.challenge_id ≡ e.challenge_id
    → i ≡ j

pub Step-AskApart :
    {w : World} {s t : System} → Step w s t → AskApart t.threads → AskApart s.threads
Step-AskApart st apart i j d e di dj = apart i j d e (Step-draws i d st di) (Step-draws j e st dj)

-- A handler that has ended drew the identifier.
abbrev pub IsPast : (ℕ → Pc) → Text → Type 0
IsPast threads id =
    (k : ℕ) × (d : Draws) × (draws_of (threads k) ≡ some d)
    × (d.challenge_id ≡ id)
    × (is_done (threads k) ≡ true)

-- The challenge is there and is no longer pending.
abbrev pub IsSettled : ApprovalService → Text → Type 0
IsSettled svc id =
    (ch : ApprovalChallenge) × (challenge_at svc id ≡ some ch) × (is_pending ch.status ≡ false)

pub record IsOrderly (svc : ApprovalService) (threads : ℕ → Pc) : Type 0 where
  pub keyed : IsKeyed svc
  pub drawn : (id : Text) → IsThere svc id → IsPast threads id
  pub settled : (j : ℕ) (id : Text) → decided_by (threads j) ≡ some id → IsSettled svc id
  pub once :
      (i j : ℕ) (id : Text)
      → decided_by (threads i) ≡ some id
      → decided_by (threads j) ≡ some id
      → i ≡ j

pub update-IsPast :
    (threads : ℕ → Pc) (i : ℕ) (p : Pc) (id : Text)
    → ((e : Draws) → draws_of (threads i) ≡ some e → draws_of p ≡ some e)
    → (is_done (threads i) ≡ true → is_done p ≡ true)
    → IsPast threads id
    → IsPast (update threads i p) id
update-IsPast threads i p id keeps ends (k, d, drew, same, ended) =
    (k, d, update_draws threads i p k d keeps drew, same, still)
  where
    still : is_done (update threads i p k) ≡ true
    still = elim (ℕ_discrete i k) [
      | no apart ↦ ground arith
      | yes i_k ↦
          let at_i : is_done (threads i) ≡ true = rw i_k ended in
          let at_p : is_done p ≡ true = ends at_i in ground arith
    ]

-- What the handlers decided after one of them moved.
pub update_decided :
    (threads : ℕ → Pc) (i : ℕ) (p : Pc) (j : ℕ) (id : Text)
    → decided_by (update threads i p j) ≡ some id
    → ((i ≡ j) × (decided_by p ≡ some id)) ⊎ (decided_by (threads j) ≡ some id)
update_decided threads i p j id h = elim (ℕ_discrete i j) [
  | yes same ↦ inl (same, ground arith)
  | no apart ↦ inr (ground arith)
]

-- A move that decides nothing new.
pub same_decided :
    (threads : ℕ → Pc) (i : ℕ) (p : Pc) (j : ℕ) (id : Text)
    → decided_by p ≡ decided_by (threads i)
    → decided_by (update threads i p j) ≡ some id
    → decided_by (threads j) ≡ some id
same_decided threads i p j id same h = elim (update_decided threads i p j id h) [
  | inr before ↦ before
  | inl (i_j, at_p) ↦ subst (λ k. decided_by (threads k) ≡ some id) i_j (sym same ∙ at_p)
]

-- A handler moves, decides nothing new, and the challenges stay as they are.
pub quiet-IsOrderly :
    (svc : ApprovalService) (threads : ℕ → Pc) (i : ℕ) (p : Pc)
    → ((e : Draws) → draws_of (threads i) ≡ some e → draws_of p ≡ some e)
    → (is_done (threads i) ≡ true → is_done p ≡ true)
    → decided_by p ≡ decided_by (threads i)
    → IsOrderly svc threads
    → IsOrderly svc (update threads i p)
quiet-IsOrderly svc threads i p keeps ends same o = record {
  keyed = o.keyed;
  drawn = λ id there. update-IsPast threads i p id keeps ends (o.drawn id there);
  settled = λ j id h. o.settled j id (same_decided threads i p j id same h);
  once = λ j k id hj hk.
      o.once j k id (same_decided threads i p j id same hj) (same_decided threads i p k id same hk);
}

-- The identifier that a handler draws is free until the handler ends.
pub drawn_free :
    (svc : ApprovalService) (threads : ℕ → Pc) (i : ℕ) (d : Draws)
    → AskApart threads
    → IsOrderly svc threads
    → draws_of (threads i) ≡ some d
    → is_done (threads i) ≡ false
    → IsThere svc d.challenge_id
    → ⊥
drawn_free svc threads i d apart o drew unfinished there =
    let (k, e, drew_k, same, ended) = o.drawn d.challenge_id there in
    let k_i : k ≡ i = apart k i e d drew_k drew same in
    let ended_i : is_done (threads i) ≡ true = subst (λ n. is_done (threads n) ≡ true) k_i ended in
    absurd (ground (arith, ended_i, unfinished))

-- A challenge that is settled stays so.
pub step-IsSettled :
    (svc : ApprovalService) (c : Call) (id : Text)
    → LeavesFree id c
    → IsSettled svc id
    → IsSettled (step svc c) id
step-IsSettled svc c id free (ch, at, final) =
    let (new, now, f) = step-Follows svc c id ch free at in
    (ch, now ∙ ap some (f.settled final), final)

-- A Confirm that succeeds settles its challenge, which no handler had decided.
confirm-IsSettled :
    (svc : ApprovalService) (id : Text) (approves : Bool) (who : Text) (now decided : ℕ)
    (ch : ApprovalChallenge)
    → IsKeyed svc
    → (confirm svc id approves who now decided).1 ≡ ok ch
    → (ch.id ≡ id)
      × IsSettled (confirm svc id approves who now decided).0 id
      × (IsSettled svc id → ⊥)
confirm-IsSettled svc id approves who now decided ch keyed worked =
    let (old, held, open_yet, in_time, at, is) =
      confirm_in_time svc id approves who now decided ch worked in
    let named : ch.id ≡ id =
      challenge_at-IsKeyed (confirm svc id approves who now decided).0 id ch
        (confirm-IsKeyed svc id approves who now decided keyed) at in
    (
      named,
      (
        ch,
        at,
        ap (λ (c : ApprovalChallenge). is_pending c.status) is
            ∙ if_both (λ s. is_pending s ≡ false) approves approved rejected refl refl,
      ),
      λ (before, there, final). absurd (ground (arith, held, there, open_yet, final)),
    )

pub tried-IsSettled :
    (svc : ApprovalService) (id : Text) (approves : Bool) (who : Text) (now decided : ℕ)
    (other : Text)
    → IsKeyed svc
    → decided_as (confirm svc id approves who now decided).1 ≡ some other
    → IsSettled (confirm svc id approves who now decided).0 other × (IsSettled svc other → ⊥)
tried-IsSettled svc id approves who now decided other keyed h =
    elim (confirm svc id approves who now decided).1
        as (λ r.
          ((confirm svc id approves who now decided).1 ≡ r)
          → decided_as r ≡ some other
          → IsSettled (confirm svc id approves who now decided).0 other
            × (IsSettled svc other → ⊥)) [
              | err e ↦ λ is h. absurd (ground (arith, h))
              | ok ch ↦ λ is h.
                  let (named, now_it, not_it) =
                    confirm-IsSettled svc id approves who now decided ch keyed is in
                  let same : id ≡ other = ground (arith, named, h) in
                  (
                    subst (IsSettled (confirm svc id approves who now decided).0) same now_it,
                    λ b. not_it (subst (IsSettled svc) (sym same) b),
                  )
            ]
      refl h
