-- ===== src/Approval/Final.antt =====
-- The life of a challenge: it leaves the pending state at most once, and a decision is final.
use sentinel_protocol.Base.{
  ℕ, ◌≡◌, refl, sym, ap, subst, ◌∙◌, ◌≢◌, Bool, true, false, Option, none, some, List, [], ◌∷◌,
  ◌++◌, arith, ltb, get, get-put_self, get-put_ne, All, Fallible, err, Bool-cases, if_both, inl,
  inr,
}
use sentinel_protocol.Text.{Text, Text-discrete, text}
use sentinel_protocol.Approval.{
  Status, pending, approved, rejected, expired, status_text, ApprovalChallenge, ApprovalService,
  start_challenge, is_pending, with_challenge, decided_challenge, confirm_found, confirm, expire,
  expire_all, clean_expired, Call, starts, confirms, cleans, step, run,
}

abbrev pub challenge_at : ApprovalService → Text → Option ApprovalChallenge
challenge_at svc id = get Text-discrete id svc.challenges

-- The moves that a call may make.
infix 40 ◌⟶◌
pub data ◌⟶◌ : Status → Status → Type 0 where
  stay : {s : Status} → s ⟶ s
  approve : pending ⟶ approved
  reject : pending ⟶ rejected
  lapse : pending ⟶ expired

-- What a call leaves of a challenge: what was asked is as it was, the status moves along an arrow,
-- and a challenge that is not pending is not touched at all.
pub record Follows (old new : ApprovalChallenge) : Type 0 where
  pub moved : old.status ⟶ new.status
  pub same_action : new.action ≡ old.action
  pub same_prompt : new.prompt ≡ old.prompt
  pub same_score : new.risk_score ≡ old.risk_score
  pub same_expiry : new.expires_at ≡ old.expires_at
  pub settled : is_pending old.status ≡ false → new ≡ old

Follows-refl : (ch : ApprovalChallenge) → Follows ch ch
Follows-refl ch = record {
  moved = stay;
  same_action = refl;
  same_prompt = refl;
  same_score = refl;
  same_expiry = refl;
  settled = λ _. refl;
}

pending_status : (s : Status) → is_pending s ≡ true → pending ≡ s
pending_status pending h = refl
pending_status approved h = cc
pending_status rejected h = cc
pending_status expired h = cc

-- A call that draws no new challenge under this identifier.
abbrev pub LeavesFree : Text → Call → Type 0
LeavesFree id (starts action prompt score other now) = other ≢ id
LeavesFree id (confirms other approves decided_by now decided) = Unit {0}
LeavesFree id (cleans now) = Unit {0}

-- The challenge is still there after the call, and follows from what it was.
abbrev Kept : ApprovalService → Text → ApprovalChallenge → Type 0
Kept svc id old = (new : ApprovalChallenge) × (challenge_at svc id ≡ some new) × Follows old new

settle-Follows :
    (ch : ApprovalChallenge) (approves : Bool) (by : Text) (at : ℕ)
    → is_pending ch.status ≡ true
    → Follows ch (decided_challenge ch approves by at)
unfolding decided_challenge
settle-Follows ch true by at h = record {
  moved = rw (← pending_status ch.status h) approve;
  same_action = refl;
  same_prompt = refl;
  same_score = refl;
  same_expiry = refl;
  settled = λ e. cc;
}
settle-Follows ch false by at h = record {
  moved = rw (← pending_status ch.status h) reject;
  same_action = refl;
  same_prompt = refl;
  same_score = refl;
  same_expiry = refl;
  settled = λ e. cc;
}

lapse-Follows :
    (ch : ApprovalChallenge)
    → is_pending ch.status ≡ true
    → Follows ch (record ch { status = expired })
lapse-Follows ch h = record {
  moved = rw (← pending_status ch.status h) lapse;
  same_action = refl;
  same_prompt = refl;
  same_score = refl;
  same_expiry = refl;
  settled = λ e. cc;
}

-- A write under an identifier of what follows from the challenge there keeps every challenge.
with_challenge-Kept :
    (svc : ApprovalService) (other id : Text) (held new old : ApprovalChallenge)
    → challenge_at svc other ≡ some held
    → Follows held new
    → challenge_at svc id ≡ some old
    → Kept (with_challenge svc other new) id old
unfolding with_challenge
with_challenge-Kept svc other id held new old there f at = elim (Text-discrete other id) [
  | yes same ↦
      let e : held ≡ old = ground arith in
      (
        new,
        ground (arith, get-put_self Text-discrete other new svc.challenges),
        subst (λ (c : ApprovalChallenge). Follows c new) e f,
      )
  | no apart ↦
      (old, get-put_ne Text-discrete other id new svc.challenges apart ∙ at, Follows-refl old)
]

confirm_found-Kept :
    (svc : ApprovalService) (other : Text) (approves : Bool) (by : Text) (now at : ℕ)
    (o : Option ApprovalChallenge) (id : Text) (old : ApprovalChallenge)
    → o ≡ challenge_at svc other
    → challenge_at svc id ≡ some old
    → Kept (confirm_found svc other approves by now at o).0 id old
unfolding confirm_found
confirm_found-Kept svc other approves by now at none id old there held =
    (old, held, Follows-refl old)
confirm_found-Kept svc other approves by now at (some ch) id old there held =
    elim (Bool-cases (is_pending ch.status)) [
      | inr final ↦ rw final (old, held, Follows-refl old)
      | inl open_yet ↦ rw open_yet (
          if_both kept (ltb ch.expires_at now) _ _
            (with_challenge-Kept svc other id ch _ old (sym there) (lapse-Follows ch open_yet) held)
            (with_challenge-Kept svc other id ch _ old (sym there)
              (settle-Follows ch approves by at open_yet) held))
    ]
  where
    kept : ApprovalService × Fallible ApprovalChallenge → Type 0
    kept p = Kept p.0 id old

pub get-expire_all :
    (now : ℕ) (id : Text) (m : List (Text × ApprovalChallenge)) (old : ApprovalChallenge)
    → get Text-discrete id m ≡ some old
    → get Text-discrete id (expire_all now m) ≡ some (expire now old)
unfolding get expire_all
get-expire_all now id [] old h = cc
get-expire_all now id ((j, ch) ∷ m) old h = ground (arith, get-expire_all now id m old)

expire-Follows : (now : ℕ) (ch : ApprovalChallenge) → Follows ch (expire now ch)
expire-Follows now ch = elim (Bool-cases (is_pending ch.status)) [
  | inr final ↦ rw final (Follows-refl ch)
  | inl open_yet ↦ rw open_yet (
      if_both (Follows ch) (ltb ch.expires_at now) _ _ (lapse-Follows ch open_yet)
        (Follows-refl ch))
]

-- A call that draws no new challenge under the identifier keeps the challenge: what was asked
-- stays as it was, the status stays or moves from pending to approved, rejected or expired, and a
-- challenge that has left the pending state is not touched.
pub step-Follows :
    (svc : ApprovalService) (c : Call) (id : Text) (old : ApprovalChallenge)
    → LeavesFree id c
    → challenge_at svc id ≡ some old
    → (new : ApprovalChallenge) × (challenge_at (step svc c) id ≡ some new) × Follows old new
unfolding step start_challenge confirm clean_expired
step-Follows svc (starts action prompt score other now) id old free held =
    (old, get-put_ne Text-discrete other id _ svc.challenges free ∙ held, Follows-refl old)
step-Follows svc (confirms other approves by now at) id old free held =
    confirm_found-Kept svc other approves by now at _ id old refl held
step-Follows svc (cleans now) id old free held =
    (expire now old, get-expire_all now id svc.challenges old held, expire-Follows now old)

run-settled :
    (svc : ApprovalService) (cs : List Call) (id : Text) (old : ApprovalChallenge)
    → All (LeavesFree id) cs
    → challenge_at svc id ≡ some old
    → is_pending old.status ≡ false
    → challenge_at (run svc cs) id ≡ some old
unfolding run
run-settled svc [] id old free held final = held
run-settled svc (c ∷ cs) id old free held final =
    let (new, at, f) = step-Follows svc c id old free.0 held in
    run-settled (step svc c) cs id old free.1 (at ∙ ap some (f.settled final)) final

pub confirm_settled :
    (svc : ApprovalService) (id : Text) (approves : Bool) (by : Text) (now at : ℕ)
    (old : ApprovalChallenge)
    → challenge_at svc id ≡ some old
    → is_pending old.status ≡ false
    → confirm svc id approves by now at
      ≡ (svc, err (text "challenge " ++ (id ++ (text " is already " ++ status_text old.status))))
unfolding confirm confirm_found
confirm_settled svc id approves by now at old held final = rw (held, final)

-- A decision is final: once a challenge was approved, rejected or expired, every later Confirm of
-- it is refused with that status and changes nothing, through any calls in between that do not draw
-- the same identifier anew.
pub decision_is_final :
    (svc : ApprovalService) (cs : List Call) (id : Text) (approves : Bool) (by : Text) (now at : ℕ)
    (old : ApprovalChallenge)
    → All (LeavesFree id) cs
    → challenge_at svc id ≡ some old
    → is_pending old.status ≡ false
    → confirm (run svc cs) id approves by now at ≡ (
      run svc cs,
      err (text "challenge " ++ (id ++ (text " is already " ++ status_text old.status))),
    )
decision_is_final svc cs id approves by now at old free held final =
    confirm_settled (run svc cs) id approves by now at old
      (run-settled svc cs id old free held final) final
