-- ===== src/Executor/OneTime.antt =====
-- A token is good for one redemption, within its time to live.
use sentinel_protocol.Base.{
  ℕ, ◌≤◌, ◌≡◌, refl, ◌∙◌, ◌≢◌, true, false, Option, none, some, List, [], ◌∷◌, ◌++◌, arith, ite,
  get, put, get-put, get-put_self, get-put_ne, All, Fallible, ok, err, if_both,
}
use sentinel_protocol.Text.{Text, Text-discrete, text}
use sentinel_protocol.Executor.{
  ExecuteToken, ExecuteGuard, generate_token_id, new_token, issue, redeem_found, redeem, Call,
  issues, redeems, step, run, after,
}

-- What the map holds at an identifier.
abbrev pub token_at : ExecuteGuard → Text → Option ExecuteToken
token_at eg id = get Text-discrete id eg.tokens

abbrev pub IsSpent : ExecuteGuard → Text → Type 0
IsSpent eg id = (tok : ExecuteToken) × (token_at eg id ≡ some tok) × (tok.redeemed ≡ true)

-- A call that gives no new token this identifier.
abbrev pub LeavesFree : Text → Call → Type 0
LeavesFree id (issues action bytes now) = generate_token_id bytes ≢ id
LeavesFree id (redeems other now) = Unit {0}

pub token_at-issue :
    (eg : ExecuteGuard) (action : Text) (bytes : List ℕ) (now : ℕ) (id : Text)
    → token_at (issue eg action bytes now).0 id
      ≡ ite
          (Text-discrete (generate_token_id bytes) id)
          (some (new_token eg action bytes now))
          (token_at eg id)
unfolding issue new_token
token_at-issue eg action bytes now id =
    get-put Text-discrete (generate_token_id bytes) id _ eg.tokens

-- What a redemption that succeeds saw and did.
pub redeem_found_ok :
    (eg : ExecuteGuard) (id : Text) (now : ℕ) (o : Option ExecuteToken) (tok : ExecuteToken)
    → (redeem_found eg id now o).1 ≡ ok tok
    → (old : ExecuteToken) × (o ≡ some old)
      × (old.redeemed ≡ false)
      × (now ≤ old.expires_at)
      × (tok ≡ record old { redeemed = true })
      × ((redeem_found eg id now o).0 ≡ record eg { tokens = put Text-discrete id tok eg.tokens })
unfolding redeem_found
redeem_found_ok eg id now none tok h = cc
redeem_found_ok eg id now (some old) tok h =
    (old, refl, ground arith, ground arith, ground arith, ground arith)

put-IsSpent :
    (eg : ExecuteGuard) (id other : Text) (used : ExecuteToken)
    → used.redeemed ≡ true
    → IsSpent eg other
    → IsSpent (record eg { tokens = put Text-discrete id used eg.tokens }) other
put-IsSpent eg id other used h (tok, at, spent) = elim (Text-discrete id other) [
  | yes same ↦ (used, ground (arith, get-put_self Text-discrete id used eg.tokens), h)
  | no apart ↦ (tok, get-put_ne Text-discrete id other used eg.tokens apart ∙ at, spent)
]

pub redeem_found-IsSpent :
    (eg : ExecuteGuard) (id : Text) (now : ℕ) (o : Option ExecuteToken) (other : Text)
    → IsSpent eg other
    → IsSpent (redeem_found eg id now o).0 other
unfolding redeem_found
redeem_found-IsSpent eg id now none other s = s
redeem_found-IsSpent eg id now (some tok) other s =
    if_both spent_in tok.redeemed _ _ s
      (if_both spent_in (after now tok.expires_at) _ _ s (put-IsSpent eg id other _ refl s))
  where
    spent_in : ExecuteGuard × Fallible ExecuteToken → Type 0
    spent_in p = IsSpent p.0 other

step-IsSpent :
    (eg : ExecuteGuard) (c : Call) (id : Text)
    → LeavesFree id c
    → IsSpent eg id
    → IsSpent (step eg c) id
unfolding step redeem
step-IsSpent eg (issues action bytes now) id free (tok, at, spent) =
    (tok, ground (arith, token_at-issue eg action bytes now id), spent)
step-IsSpent eg (redeems other now) id free s = redeem_found-IsSpent eg other now _ id s

run-IsSpent :
    (eg : ExecuteGuard) (cs : List Call) (id : Text)
    → All (LeavesFree id) cs
    → IsSpent eg id
    → IsSpent (run eg cs) id
unfolding run
run-IsSpent eg [] id free s = s
run-IsSpent eg (c ∷ cs) id free s =
    run-IsSpent (step eg c) cs id free.1 (step-IsSpent eg c id free.0 s)

pub redeem_spent :
    (eg : ExecuteGuard) (id : Text) (now : ℕ)
    → IsSpent eg id
    → redeem eg id now ≡ (eg, err (text "token already redeemed: " ++ id))
unfolding redeem redeem_found
redeem_spent eg id now (tok, at, spent) = rw (at, spent)

pub redeem_spends :
    (eg : ExecuteGuard) (id : Text) (now : ℕ) (tok : ExecuteToken)
    → (redeem eg id now).1 ≡ ok tok
    → IsSpent (redeem eg id now).0 id
unfolding redeem
redeem_spends eg id now tok h =
    let (old, _, _, _, used, state) = redeem_found_ok eg id now (token_at eg id) tok h in
    rw state (tok, get-put_self Text-discrete id tok eg.tokens, rw used refl)

-- No replay: once a token was redeemed, every later redemption of it is refused as already
-- redeemed and changes nothing, through any calls in between that do not draw the same identifier
-- anew.
pub no_replay :
    (eg : ExecuteGuard) (id : Text) (now later : ℕ) (tok : ExecuteToken) (between : List Call)
    → (redeem eg id now).1 ≡ ok tok
    → All (LeavesFree id) between
    → let state = run (redeem eg id now).0 between in
      redeem state id later ≡ (state, err (text "token already redeemed: " ++ id))
no_replay eg id now later tok between h free =
    redeem_spent _ id later (run-IsSpent _ between id free (redeem_spends eg id now tok h))
