-- ===== src/Approval/Expiry.antt =====
-- Confirm decides in time only, and CleanExpired leaves no challenge overdue.
use sentinel_protocol.Base.{
  ℕ, ◌≤◌, ◌≡◌, refl, Bool, true, Option, none, some, List, [], ◌∷◌, arith, if◌then◌else◌,
  get-put_self, All, ok, ap₂,
}
use sentinel_protocol.Text.{Text, Text-discrete}
use sentinel_protocol.Approval.{
  approved, rejected, ApprovalChallenge, ApprovalService, is_pending, with_challenge,
  decided_challenge, confirm_found, confirm, pending_of, list_pending, expire, expire_all,
  overdue_of, clean_expired,
}
use sentinel_protocol.Approval.Final.{challenge_at}

confirm_found_ok :
    (svc : ApprovalService) (id : Text) (approves : Bool) (by : Text) (now at : ℕ)
    (o : Option ApprovalChallenge) (ch : ApprovalChallenge)
    → (confirm_found svc id approves by now at o).1 ≡ ok ch
    → (old : ApprovalChallenge) × (o ≡ some old)
      × (is_pending old.status ≡ true)
      × (now ≤ old.expires_at)
      × (ch ≡ decided_challenge old approves by at)
      × ((confirm_found svc id approves by now at o).0 ≡ with_challenge svc id ch)
unfolding confirm_found
confirm_found_ok svc id approves by now at none ch h = cc
confirm_found_ok svc id approves by now at (some old) ch h =
    (old, refl, ground arith, ground arith, ground arith, ground arith)

-- A Confirm that succeeds decided a pending challenge that had not expired, and the challenge that
-- it returns is the one in the map: with the decision that was asked for, its time and its author,
-- and otherwise as it was.
pub confirm_in_time :
    (svc : ApprovalService) (id : Text) (approves : Bool) (by : Text) (now at : ℕ)
    (ch : ApprovalChallenge)
    → (confirm svc id approves by now at).1 ≡ ok ch
    → (old : ApprovalChallenge) × (challenge_at svc id ≡ some old)
      × (is_pending old.status ≡ true)
      × (now ≤ old.expires_at)
      × (challenge_at (confirm svc id approves by now at).0 id ≡ some ch)
      × (ch ≡ record old {
        status = if approves then approved else rejected;
        decided_at = some at;
        decision_by = by;
      })
unfolding confirm decided_challenge with_challenge
confirm_in_time svc id approves by now at ch h =
    let (old, held, open_yet, alive, e, state) =
      confirm_found_ok svc id approves by now at (challenge_at svc id) ch h in
    (old, held, open_yet, alive, rw state (get-put_self Text-discrete id ch svc.challenges), e)

abbrev values : List (Text × ApprovalChallenge) → List ApprovalChallenge
values [] = []
values ((id, ch) ∷ m) = ch ∷ values m

expire_idem : (now : ℕ) (ch : ApprovalChallenge) → expire now (expire now ch) ≡ expire now ch
expire_idem now ch = ground arith

expire_all_idem :
    (now : ℕ) (m : List (Text × ApprovalChallenge))
    → expire_all now (expire_all now m) ≡ expire_all now m
unfolding expire_all
expire_all_idem now [] = refl
expire_all_idem now ((id, ch) ∷ m) =
    ap₂ (λ (c : ApprovalChallenge) (r : List (Text × ApprovalChallenge)). (id, c) ∷ r)
      (expire_idem now ch) (expire_all_idem now m)

overdue_of-expire_all :
    (now : ℕ) (m : List (Text × ApprovalChallenge)) → overdue_of now (expire_all now m) ≡ []
unfolding expire_all overdue_of
overdue_of-expire_all now [] = refl
overdue_of-expire_all now ((id, ch) ∷ m) = ground (arith, overdue_of-expire_all now m)

-- CleanExpired leaves nothing overdue: to run it again at once changes nothing and expires nothing.
pub clean_expired_idem :
    (svc : ApprovalService) (now : ℕ)
    → clean_expired (clean_expired svc now).0 now ≡ ((clean_expired svc now).0, [])
unfolding clean_expired
clean_expired_idem svc now =
    ap₂
      (λ (m : List (Text × ApprovalChallenge)) (r : List ApprovalChallenge).
        (record svc { challenges = m }, r))
      (expire_all_idem now svc.challenges) (overdue_of-expire_all now svc.challenges)

abbrev InTime : ℕ → ApprovalChallenge → Type 0
InTime now ch = (is_pending ch.status ≡ true) × (now ≤ ch.expires_at)

pending_of-expire_all :
    (now : ℕ) (m : List (Text × ApprovalChallenge))
    → All (InTime now) (pending_of (expire_all now m))
unfolding pending_of expire_all
pending_of-expire_all now [] = tt
pending_of-expire_all now ((id, ch) ∷ m) = ground (arith, pending_of-expire_all now m)

-- After CleanExpired every challenge that is listed as pending is still in time.
pub list_pending-clean_expired :
    (svc : ApprovalService) (now : ℕ)
    → All
        (λ ch. (is_pending ch.status ≡ true) × (now ≤ ch.expires_at))
        (list_pending (clean_expired svc now).0)
unfolding list_pending clean_expired
list_pending-clean_expired svc now = pending_of-expire_all now svc.challenges
