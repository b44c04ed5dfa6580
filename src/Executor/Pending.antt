-- ===== src/Executor/Pending.antt =====
-- The count of pending tokens, call by call.
use sentinel_protocol.Base.{
  ℕ, ◌+◌, ◌<◌, ◌≡◌, Bool, true, Option, none, some, List, [], ◌∷◌, arith, if◌then◌else◌, get, put,
  ok,
}
use sentinel_protocol.Text.{Text, Text-discrete}
use sentinel_protocol.Executor.{
  ExecuteToken, ExecuteGuard, generate_token_id, new_token, issue, redeem, is_pending, pending_in,
  pending_count, before,
}
use sentinel_protocol.Executor.OneTime.{token_at, redeem_found_ok}

abbrev pub one_if : Bool → ℕ
one_if b = if b then 1 else 0

abbrev pending_at : ℕ → Option ExecuteToken → ℕ
pending_at now none = 0
pending_at now (some tok) = one_if (is_pending now tok)

pending_in-put :
    (now : ℕ) (id : Text) (tok : ExecuteToken) (m : List (Text × ExecuteToken))
    → pending_in now (put Text-discrete id tok m) + pending_at now (get Text-discrete id m)
      ≡ pending_in now m + one_if (is_pending now tok)
unfolding pending_in put get
pending_in-put now id tok [] = ground arith
pending_in-put now id tok ((j, old) ∷ m) = ground (arith, pending_in-put now id tok m)

-- A token under a new identifier adds one to the count at the moment of its issue, if its time to
-- live is positive; NewExecuteGuard sees to that.
pub pending_count-issue :
    (eg : ExecuteGuard) (action : Text) (bytes : List ℕ) (now : ℕ)
    → 0 < eg.ttl
    → token_at eg (generate_token_id bytes) ≡ none
    → pending_count (issue eg action bytes now).0 now ≡ pending_count eg now + 1
unfolding pending_count issue new_token
pending_count-issue eg action bytes now positive free =
    ground (
      arith,
      pending_in-put now (generate_token_id bytes) (new_token eg action bytes now) eg.tokens,
    )

-- A redemption takes one off the count, but for the moment of expiry itself: there the token is
-- still redeemed, and was not counted.
pub pending_count-redeem :
    (eg : ExecuteGuard) (id : Text) (now : ℕ) (tok : ExecuteToken)
    → (redeem eg id now).1 ≡ ok tok
    → pending_count (redeem eg id now).0 now + one_if (before now tok.expires_at)
      ≡ pending_count eg now
unfolding pending_count redeem
pending_count-redeem eg id now tok h =
    let (old, at, new, alive, used, state) = redeem_found_ok eg id now (token_at eg id) tok h in
    let expiry : tok.expires_at ≡ old.expires_at = λ i. (used i).expires_at in
    let spent : tok.redeemed ≡ true = λ i. (used i).redeemed in
    rw state (ground (arith, pending_in-put now id tok eg.tokens))
