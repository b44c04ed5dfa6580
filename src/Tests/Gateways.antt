-- ===== src/Tests/Gateways.antt =====
-- The gateway, at concrete requests.
use sentinel_protocol.Base.{
  All, ok, ◌+◌, get, put, ◌≡◌, refl, true, false, none, some, List, [], ◌∷◌, ◌++◌, pos, arith,
}
use sentinel_protocol.Text.{
  Text, Text-discrete, text, hex_encode, hex_digit, to_lower, contains, has_any,
}
use sentinel_protocol.KillSwitch.{KillSwitch, new_kill_switch, is_armed, arm, record_low_risk}
use sentinel_protocol.Executor.{
  ExecuteToken, new_execute_guard, issue, new_token, generate_token_id, redeem, run, Call, issues,
  redeems,
}
use sentinel_protocol.Executor.Lifecycle.{LeavesAlone}
use sentinel_protocol.Approval.{
  confirm, confirm_found, start_challenge, new_challenge, with_challenge, decided_challenge,
  new_approval_service,
}
use sentinel_protocol.Guard.Tags.{contains_tag}
use sentinel_protocol.Guard.Evaluate
use sentinel_protocol.Guard.Evaluate.{
  evaluate, add_behavior, keyword_tally, add_if, rule_text, injection_phrases, wallet_phrases,
  exec_phrases, outbound_phrases, bypass_phrases,
}
use sentinel_protocol.Guard.Audit.{enforce, append_audit, written, anchored}
use sentinel_protocol.Gateway.{SentinelGateway, new_sentinel_gateway, GateRequest}
use sentinel_protocol.Gateway.Gate
use sentinel_protocol.Gateway.Gate.{
  gate, capability_denied, enforce_and_settle, count_risk, respond,
}
use sentinel_protocol.Gateway.Serve.{
  gates, starts_approval, confirms_approval, executes, Happening, requests, ticks, live,
  confirm_request, after_confirm, execute_request,
}
use sentinel_protocol.Gateway.Granted.{token_of}
use sentinel_protocol.Gateway.Safety.{IsClear, gate_token-IsClear}
use sentinel_protocol.Gateway.Tokens.{
  IsClear-gate_token, IsExecuted, IsRejected, gate_token_executes_once,
}
use sentinel_protocol.Gateway.Live.{armed_gateway_stays_shut}
use sentinel_protocol.Base.{◌≤◌}
use sentinel_protocol.Gateway.{ApprovalConfirmRequest}
use sentinel_protocol.Approval.{ApprovalChallenge, is_pending}
use sentinel_protocol.Gateway.Serve.{confirm_request}
use sentinel_protocol.Approval.Final.{challenge_at}
use sentinel_protocol.Gateway.Grants.{confirm_token}
use sentinel_protocol.Tests.Fixtures.{
  ls, pay, agent, empty, world, draws, plain_guard, gateway_config,
}

abbrev pub gateway : SentinelGateway
gateway = new_sentinel_gateway plain_guard none gateway_config

abbrev pub asks_ls : GateRequest
asks_ls = record { action = ls; prompt = ls; agent_id = empty }

-- "tok-abcd".
abbrev pub tok_id : Text
tok_id = 116 ∷ 111 ∷ 107 ∷ 45 ∷ 97 ∷ 98 ∷ 99 ∷ 100 ∷ []

abbrev pub token : ExecuteToken
token = record { id = tok_id; action = ls; issued_at = 6; expires_at = 56; redeemed = false }

abbrev approved_history : List Happening
approved_history =
    requests draws
      (starts_approval true (some (record { action = ls; prompt = ls; score = pos 80 })))
    ∷ requests draws (
        confirms_approval true
          (some (record { challenge_id = pay; approves = true; decided_by = agent })))
    ∷ []

pub ls_is_allowed : token_of (gate world draws gateway asks_ls).1.body ≡ some token
unfolding gate is_armed new_sentinel_gateway new_kill_switch capability_denied enforce_and_settle
    enforce append_audit written Gate.conclude count_risk record_low_risk anchored evaluate
    Evaluate.conclude add_behavior keyword_tally add_if has_any contains rule_text to_lower text
    injection_phrases wallet_phrases exec_phrases outbound_phrases bypass_phrases contains_tag
    respond issue new_token generate_token_id hex_encode hex_digit new_execute_guard
ls_is_allowed = refl

gate_token-IsClear_example : IsClear world draws gateway asks_ls
gate_token-IsClear_example = gate_token-IsClear world draws gateway asks_ls token ls_is_allowed

abbrev armed_switch : KillSwitch
armed_switch = arm (new_kill_switch (pos 3)) pay 7

gate_token_executes_once_example :
    let opened = record (gate world draws gateway asks_ls).0 { kill = armed_switch } in
    let (after, r) =
      execute_request world draws opened (record { token_id = token.id; prompt = ls }) in
    IsExecuted r
    × IsRejected
        (text "token already redeemed: " ++ token.id)
        (execute_request world draws after (record { token_id = token.id; prompt = pay })).1
gate_token_executes_once_example =
    gate_token_executes_once world draws draws draws gateway asks_ls token armed_switch ls pay
      ls_is_allowed (omega arith)

abbrev other_id : Text
other_id = 116 ∷ []

abbrev shut : SentinelGateway
shut = record gateway { kill = armed_switch }

is_shut : is_armed shut.kill ≡ true
unfolding arm is_armed
is_shut = refl

abbrev attempts : List Happening
attempts =
    requests draws (gates true (some asks_ls))
    ∷ ticks 40
    ∷ requests draws (executes true (some (record { token_id = tok_id; prompt = ls })))
    ∷ []

armed_gateway_stays_shut_example :
    (is_armed (live world shut attempts).kill ≡ true)
    × (((live world shut attempts).proof ≡ shut.proof)
        × ((live world shut attempts).audit_log ≡ shut.audit_log))
armed_gateway_stays_shut_example =
    armed_gateway_stays_shut world shut attempts is_shut (tt, (tt, (tt, tt)))

ls-IsClear : IsClear world draws gateway asks_ls
ls-IsClear = gate_token-IsClear world draws gateway asks_ls token ls_is_allowed

-- Another token is issued and redeemed before this one.
abbrev others : List Call
others = issues pay (1 ∷ []) 7 ∷ redeems other_id 8 ∷ []

alone_among_others : All (LeavesAlone (generate_token_id draws.token_bytes)) others
unfolding generate_token_id text hex_encode hex_digit
alone_among_others = (λ h. ground arith, ((λ h. ground arith), tt))

IsClear-gate_token_example :
    (tok : ExecuteToken) × (token_of (gate world draws gateway asks_ls).1.body ≡ some tok)
    × (tok.action ≡ ls)
    × (tok.expires_at ≡ 6 + gateway.executor.ttl)
    × ((redeem (run (gate world draws gateway asks_ls).0.executor others) tok.id 6).1
        ≡ ok (record tok { redeemed = true }))
IsClear-gate_token_example =
    IsClear-gate_token world draws gateway asks_ls others 6 ls-IsClear alone_among_others
      (omega arith)

-- The gateway after a challenge was started under the identifier "pay".
abbrev waiting : SentinelGateway
waiting = record gateway { approval = (start_challenge gateway.approval ls ls (pos 80) pay 4).0 }

abbrev approves_pay : ApprovalConfirmRequest
approves_pay = record { challenge_id = pay; approves = true; decided_by = agent }

pay_takes_token : token_of (confirm_request draws waiting approves_pay).1.body ≡ some token
unfolding get put confirm_request after_confirm confirm confirm_found start_challenge new_challenge
    with_challenge decided_challenge new_sentinel_gateway new_approval_service new_execute_guard
    issue new_token generate_token_id text hex_encode hex_digit Text-discrete
pay_takes_token = refl

confirm_token_example :
    (old : ApprovalChallenge) × (challenge_at waiting.approval pay ≡ some old)
    × (is_pending old.status ≡ true)
    × (4 ≤ old.expires_at)
    × (approves_pay.approves ≡ true)
    × (ls ≡ old.action)
confirm_token_example = confirm_token draws waiting approves_pay token pay_takes_token
