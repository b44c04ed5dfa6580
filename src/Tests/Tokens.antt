-- ===== src/Tests/Tokens.antt =====
-- Execution tokens, at concrete calls.
use sentinel_protocol.Base.{
  ℕ, ◌+◌, ◌≡◌, ◌≢◌, refl, true, List, [], ◌∷◌, ◌++◌, pos, ok, err, if◌then◌else◌, get, put,
}
use sentinel_protocol.Text.{Text, Text-discrete, text, hex_encode, hex_digit}
use sentinel_protocol.Executor.{
  ExecuteToken, ExecuteGuard, new_execute_guard, generate_token_id, new_token, issue, redeem_found,
  redeem, pending_count, issues, redeems, step, run, after, before,
}
use sentinel_protocol.Executor.Lifecycle.{issued_redeems}
use sentinel_protocol.Executor.Pending.{pending_count-redeem, one_if}
use sentinel_protocol.Tests.Fixtures.{pay}

abbrev bytes : List ℕ
bytes = 171 ∷ 205 ∷ []

-- The identifier of the token drawn: "tok-abcd".
abbrev tok_id : Text
tok_id = 116 ∷ 111 ∷ 107 ∷ 45 ∷ 97 ∷ 98 ∷ 99 ∷ 100 ∷ []

abbrev guard : ExecuteGuard
guard = new_execute_guard (pos 50)

abbrev holding : ExecuteGuard
holding = run guard (issues pay bytes 5 ∷ [])

abbrev redeemed_token : ExecuteToken
redeemed_token = record {
  id = tok_id;
  action = pay;
  issued_at = 5;
  expires_at = 55;
  redeemed = true;
}

redeems_in_time : (redeem holding tok_id 20).1 ≡ ok redeemed_token
unfolding redeem redeem_found run step issue new_token generate_token_id new_execute_guard get put
    text hex_encode hex_digit Text-discrete
redeems_in_time = refl

redeems_at_expiry : (redeem holding tok_id 55).1 ≡ ok redeemed_token
unfolding redeem redeem_found run step issue new_token generate_token_id new_execute_guard get put
    text hex_encode hex_digit Text-discrete
redeems_at_expiry = refl

pay_is_another : pay ≢ generate_token_id bytes
unfolding generate_token_id text
pay_is_another e = absurd (cc)

issued_redeems_example :
    (redeem (run (issue guard pay bytes 5).0 (redeems pay 21 ∷ [])) (generate_token_id bytes) 30).1
    ≡ (if after 30 (5 + guard.ttl)
        then err (text "token expired: " ++ generate_token_id bytes)
        else ok (record (new_token guard pay bytes 5) { redeemed = true }))
issued_redeems_example =
    issued_redeems guard pay bytes 5 30 (redeems pay 21 ∷ []) (pay_is_another, tt)

pending_count-redeem_example :
    pending_count (redeem holding tok_id 55).0 55 + one_if (before 55 redeemed_token.expires_at)
    ≡ pending_count holding 55
pending_count-redeem_example =
    pending_count-redeem holding tok_id 55 redeemed_token redeems_at_expiry
