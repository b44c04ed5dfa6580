-- ===== src/Executor.antt =====
-- goserver/sentinel_executor.go: one-time execution tokens. Each method holds the lock for all of
-- its body, so it is one step; the clock and the random bytes are arguments, and times and
-- durations are nanoseconds.
pub mod OneTime
pub mod Lifecycle
pub mod Pending
use sentinel_protocol.Base.{
  ℕ, ◌+◌, Bool, true, false, not, ◌&&◌, Option, none, some, List, [], ◌∷◌, ◌++◌, if◌then◌else◌, ltb,
  ℤ, positive_or, get, put, Fallible, ok, err,
}
use sentinel_protocol.Text.{Text, Text-discrete, text, hex_encode}

pub record ExecuteToken : Type 0 where
  pub id : Text
  pub action : Text
  pub issued_at : ℕ
  pub expires_at : ℕ
  pub redeemed : Bool

pub record ExecuteGuard : Type 0 where
  pub tokens : List (Text × ExecuteToken)
  pub ttl : ℕ

-- 30 seconds.
abbrev pub default_ttl : ℕ
default_ttl = 30000000000

unfoldable pub new_execute_guard : ℤ → ExecuteGuard
new_execute_guard ttl = record { tokens = []; ttl = positive_or ttl default_ttl }

-- The identifier of the sixteen random bytes.
unfoldable pub generate_token_id : List ℕ → List ℕ
generate_token_id bytes = text "tok-" ++ hex_encode bytes

-- now.After(t) and now.Before(t).
abbrev pub after : ℕ → ℕ → Bool
after now t = ltb t now

abbrev pub before : ℕ → ℕ → Bool
before now t = ltb now t

unfoldable pub new_token : ExecuteGuard → Text → List ℕ → ℕ → ExecuteToken
new_token eg action bytes now = record {
  id = generate_token_id bytes;
  action = action;
  issued_at = now;
  expires_at = now + eg.ttl;
  redeemed = false;
}

unfoldable pub issue : ExecuteGuard → Text → List ℕ → ℕ → ExecuteGuard × ExecuteToken
issue eg action bytes now =
    let tok = new_token eg action bytes now in
    (record eg { tokens = put Text-discrete tok.id tok eg.tokens }, tok)

-- Redeem on what the map holds at the identifier. The token that is returned is the one in the
-- map, so it is marked as redeemed too.
unfoldable pub redeem_found :
    ExecuteGuard → Text → ℕ → Option ExecuteToken → ExecuteGuard × Fallible ExecuteToken
redeem_found eg id now none = (eg, err (text "token not found: " ++ id))
redeem_found eg id now (some tok) =
    let used = record tok { redeemed = true } in
    if tok.redeemed
    then (eg, err (text "token already redeemed: " ++ id))
    else if after now tok.expires_at
    then (eg, err (text "token expired: " ++ id))
    else (record eg { tokens = put Text-discrete id used eg.tokens }, ok used)

unfoldable pub redeem : ExecuteGuard → Text → ℕ → ExecuteGuard × Fallible ExecuteToken
redeem eg id now = redeem_found eg id now (get Text-discrete id eg.tokens)

abbrev pub is_pending : ℕ → ExecuteToken → Bool
is_pending now tok = not tok.redeemed && before now tok.expires_at

unfoldable pub pending_in : ℕ → List (Text × ExecuteToken) → ℕ
pending_in now [] = 0
pending_in now ((id, tok) ∷ tokens) =
    let rest = pending_in now tokens in if is_pending now tok then rest + 1 else rest

unfoldable pub pending_count : ExecuteGuard → ℕ → ℕ
pending_count eg now = pending_in now eg.tokens

-- The calls that change the guard.
pub data Call : Type 0 where
  issues : Text → List ℕ → ℕ → Call
  redeems : Text → ℕ → Call

unfoldable pub step : ExecuteGuard → Call → ExecuteGuard
step eg (issues action bytes now) = (issue eg action bytes now).0
step eg (redeems id now) = (redeem eg id now).0

unfoldable pub run : ExecuteGuard → List Call → ExecuteGuard
run eg [] = eg
run eg (c ∷ cs) = run (step eg c) cs
