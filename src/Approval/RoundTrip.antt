-- ===== src/Approval/RoundTrip.antt =====
-- From the start of a challenge to its decision.
use sentinel_protocol.Base.{
  ℕ, ◌+◌, ◌≤◌, ◌≡◌, refl, ap, ◌∙◌, ◌≢◌, Bool, false, Option, none, some, List, [], ◌∷◌, arith, ltb,
  get-put_self, get-put_ne, All, ok, ℤ,
}
use sentinel_protocol.Text.{Text, Text-discrete}
use sentinel_protocol.Approval.{
  ApprovalChallenge, ApprovalService, expired, new_challenge, start_challenge, with_challenge,
  decided_challenge, confirm_found, confirm, get_challenge, expire, clean_expired, Call, starts,
  confirms, cleans, step, run,
}
use sentinel_protocol.Approval.Final.{challenge_at, get-expire_all}

-- A call that neither draws the identifier nor decides its challenge, nor cleans after the deadline.
abbrev pub LeavesOpen : Text → ℕ → Call → Type 0
LeavesOpen id deadline (starts action prompt score other now) = other ≢ id
LeavesOpen id deadline (confirms other approves who now decided) = other ≢ id
LeavesOpen id deadline (cleans now) = now ≤ deadline

-- The challenge stands in the map and is open.
abbrev IsOpen : ApprovalService → Text → ApprovalChallenge → Type 0
IsOpen svc id ch = challenge_at svc id ≡ some ch

expire_in_time : (now : ℕ) (ch : ApprovalChallenge) → now ≤ ch.expires_at → expire now ch ≡ ch
expire_in_time now ch h =
    let in_time : ltb ch.expires_at now ≡ false = ground arith in ground (arith, in_time)

confirm_found-open :
    (svc : ApprovalService) (other : Text) (approves : Bool) (who : Text) (now decided : ℕ)
    (o : Option ApprovalChallenge) (id : Text)
    → other ≢ id
    → challenge_at (confirm_found svc other approves who now decided o).0 id ≡ challenge_at svc id
unfolding confirm_found with_challenge
confirm_found-open svc other approves who now decided none id apart = refl
confirm_found-open svc other approves who now decided (some ch) id apart = ground (
  arith,
  get-put_ne Text-discrete other id (record ch { status = expired }) svc.challenges apart,
  get-put_ne Text-discrete other id (decided_challenge ch approves who decided) svc.challenges
      apart,
)

step-IsOpen :
    (svc : ApprovalService) (c : Call) (id : Text) (ch : ApprovalChallenge)
    → LeavesOpen id ch.expires_at c
    → IsOpen svc id ch
    → IsOpen (step svc c) id ch
unfolding step start_challenge confirm clean_expired
step-IsOpen svc (starts action prompt score other now) id ch apart at =
    get-put_ne Text-discrete other id (new_challenge svc action prompt score other now)
      svc.challenges apart
    ∙ at
step-IsOpen svc (confirms other approves who now decided) id ch apart at =
    confirm_found-open svc other approves who now decided (challenge_at svc other) id apart ∙ at
step-IsOpen svc (cleans now) id ch in_time at =
    get-expire_all now id svc.challenges ch at ∙ ap some (expire_in_time now ch in_time)

run-IsOpen :
    (svc : ApprovalService) (cs : List Call) (id : Text) (ch : ApprovalChallenge)
    → All (LeavesOpen id ch.expires_at) cs
    → IsOpen svc id ch
    → IsOpen (run svc cs) id ch
unfolding run
run-IsOpen svc [] id ch calm at = at
run-IsOpen svc (c ∷ cs) id ch calm at =
    run-IsOpen (step svc c) cs id ch calm.1 (step-IsOpen svc c id ch calm.0 at)

-- A challenge that was started is found under its identifier as it was made, and a confirmation up to
-- its expiry decides it as asked and leaves it decided in the map, through any calls that neither draw
-- its identifier, nor decide it, nor clean after its expiry.
pub started_confirms :
    (svc : ApprovalService) (action prompt : Text) (score : ℤ) (id : Text) (started : ℕ)
    (between : List Call) (approves : Bool) (who : Text) (now decided : ℕ)
    → All (LeavesOpen id (started + svc.timeout)) between
    → now ≤ started + svc.timeout
    → let (after, ch) = start_challenge svc action prompt score id started in
      let state = run after between in
      let (final, result) = confirm state id approves who now decided in
      let settled = decided_challenge ch approves who decided in
      (get_challenge state id ≡ some ch)
      × (result ≡ ok settled)
      × (get_challenge final id ≡ some settled)
unfolding start_challenge get_challenge confirm confirm_found with_challenge new_challenge
started_confirms svc action prompt score id started between approves who now decided calm in_time =
    let ch = new_challenge svc action prompt score id started in
    let at : challenge_at (start_challenge svc action prompt score id started).0 id ≡ some ch =
      get-put_self Text-discrete id ch svc.challenges in
    let still =
      run-IsOpen (start_challenge svc action prompt score id started).0 between id ch calm at in
    let due : ltb (started + svc.timeout) now ≡ false = ground arith in
    let settled = decided_challenge ch approves who decided in
    (still, rw (still, due) refl, rw (still, due) (get-put_self Text-discrete id settled _))
