-- ===== src/Tests/Approvals.antt =====
-- Approval challenges, at concrete calls.
use sentinel_protocol.Base.{
  ◌≤◌, if◌then◌else◌, ◌≡◌, refl, arith, true, false, some, [], ◌∷◌, ◌++◌, pos, ok, err, get, put,
}
use sentinel_protocol.Text.{Text-discrete, text}
use sentinel_protocol.Approval.{
  is_pending, rejected, ApprovalChallenge, ApprovalService, approved, status_text,
  new_approval_service, start_challenge, new_challenge, confirm, confirm_found, decided_challenge,
  get_challenge, with_challenge, starts, confirms, cleans, step, run,
}
use sentinel_protocol.Approval.Final.{decision_is_final, challenge_at}
use sentinel_protocol.Approval.RoundTrip.{started_confirms}
use sentinel_protocol.Approval.Expiry.{confirm_in_time}
use sentinel_protocol.Tests.Fixtures.{ls, pay, agent}

-- A challenge under the identifier "pay" that was approved in time.
abbrev waiting : ApprovalService
waiting = run (new_approval_service (pos 100)) (starts ls ls (pos 80) pay 5 ∷ [])

abbrev settled : ApprovalChallenge
settled = record {
  id = pay;
  action = ls;
  prompt = ls;
  risk_score = pos 80;
  status = approved;
  created_at = 5;
  expires_at = 105;
  decided_at = some 21;
  decision_by = agent;
}

approves_in_time : (confirm waiting pay true agent 20 21).1 ≡ ok settled
unfolding confirm confirm_found run step start_challenge new_challenge new_approval_service
    decided_challenge with_challenge get put Text-discrete
approves_in_time = refl

confirm_in_time_example :
    (old : ApprovalChallenge) × (challenge_at waiting pay ≡ some old)
    × (is_pending old.status ≡ true)
    × (20 ≤ old.expires_at)
    × (challenge_at (confirm waiting pay true agent 20 21).0 pay ≡ some settled)
    × (settled ≡ record old {
      status = if true then approved else rejected;
      decided_at = some 21;
      decision_by = agent;
    })
confirm_in_time_example = confirm_in_time waiting pay true agent 20 21 settled approves_in_time

abbrev decided : ApprovalService
decided = run waiting (confirms pay true agent 20 21 ∷ [])

is_settled : challenge_at decided pay ≡ some settled
unfolding confirm confirm_found run step start_challenge new_challenge new_approval_service
    decided_challenge with_challenge get put Text-discrete
is_settled = refl

decision_is_final_example : confirm (run decided (cleans 500 ∷ [])) pay false agent 600 601 ≡ (
  run decided (cleans 500 ∷ []),
  err (text "challenge " ++ (pay ++ (text " is already " ++ status_text approved))),
)
decision_is_final_example =
    decision_is_final decided (cleans 500 ∷ []) pay false agent 600 601 settled (tt, tt) is_settled
      refl

-- Another challenge is started, and the watcher ticks, before "pay" is decided.
started_confirms_example :
    let svc = new_approval_service (pos 100) in
    let (after, ch) = start_challenge svc ls ls (pos 80) pay 5 in
    let state = run after (starts ls ls (pos 70) agent 6 ∷ cleans 90 ∷ []) in
    let (final, result) = confirm state pay false agent 99 100 in
    let refused = decided_challenge ch false agent 100 in
    (get_challenge state pay ≡ some ch)
    × (result ≡ ok refused)
    × (get_challenge final pay ≡ some refused)
unfolding new_approval_service
started_confirms_example =
    started_confirms (new_approval_service (pos 100)) ls ls (pos 80) pay 5
      (starts ls ls (pos 70) agent 6 ∷ cleans 90 ∷ []) false agent 99 100
      (λ same. cc, (omega arith, tt)) (omega arith)
