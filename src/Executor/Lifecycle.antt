-- ===== src/Executor/Lifecycle.antt =====
-- From the issue of a token to its redemption.
use sentinel_protocol.Base.{
  ℕ, ◌+◌, ◌≤◌, ◌≡◌, refl, sym, ap, ◌∙◌, ◌≢◌, true, Option, none, some, List, [], ◌∷◌, ◌++◌, arith,
  if◌then◌else◌, get, get-put_self, get-put_ne, All, ok, err, ℤ, subst,
}
use mathlib.Core.List.{append_assoc, append-nil}
use sentinel_protocol.Text.{Text, Text-discrete, text}
use sentinel_protocol.Executor.{
  ExecuteToken, ExecuteGuard, new_execute_guard, generate_token_id, new_token, issue, redeem_found,
  redeem, Call, issues, redeems, step, run, after,
}
use sentinel_protocol.Executor.OneTime.{token_at, token_at-issue, redeem_found_ok}

-- A call that neither draws the identifier nor redeems it.
abbrev pub LeavesAlone : Text → Call → Type 0
LeavesAlone id (issues action bytes now) = generate_token_id bytes ≢ id
LeavesAlone id (redeems other now) = other ≢ id

redeem_found-token_at :
    (eg : ExecuteGuard) (other : Text) (now : ℕ) (o : Option ExecuteToken) (id : Text)
    → other ≢ id
    → token_at (redeem_found eg other now o).0 id ≡ token_at eg id
unfolding redeem_found
redeem_found-token_at eg other now none id apart = refl
redeem_found-token_at eg other now (some tok) id apart =
    ground
      (arith, get-put_ne Text-discrete other id (record tok { redeemed = true }) eg.tokens apart)

step-token_at :
    (eg : ExecuteGuard) (c : Call) (id : Text)
    → LeavesAlone id c
    → token_at (step eg c) id ≡ token_at eg id
unfolding step redeem
step-token_at eg (issues action bytes now) id alone =
    ground (arith, token_at-issue eg action bytes now id)
step-token_at eg (redeems other now) id alone = redeem_found-token_at eg other now _ id alone

run-token_at :
    (eg : ExecuteGuard) (cs : List Call) (id : Text)
    → All (LeavesAlone id) cs
    → token_at (run eg cs) id ≡ token_at eg id
unfolding run
run-token_at eg [] id alone = refl
run-token_at eg (c ∷ cs) id alone =
    run-token_at (step eg c) cs id alone.1 ∙ step-token_at eg c id alone.0

-- A token that was issued is redeemed with its own action up to its expiry, the moment of expiry
-- included, and refused as expired after it, through any calls that leave its identifier alone.
pub issued_redeems :
    (eg : ExecuteGuard) (action : Text) (bytes : List ℕ) (now later : ℕ) (between : List Call)
    → All (LeavesAlone (generate_token_id bytes)) between
    → let id = generate_token_id bytes in
      (redeem (run (issue eg action bytes now).0 between) id later).1 ≡ (
        if after later (now + eg.ttl)
        then err (text "token expired: " ++ id)
        else ok (record (new_token eg action bytes now) { redeemed = true }))
unfolding redeem redeem_found new_token
issued_redeems eg action bytes now later between alone = ground (
  arith,
  run-token_at (issue eg action bytes now).0 between (generate_token_id bytes) alone,
  token_at-issue eg action bytes now (generate_token_id bytes),
)

-- The calls contain the issue of this token, at this time to live.
abbrev pub WasIssued : ℕ → List Call → Text → ExecuteToken → Type 0
WasIssued ttl cs id tok =
    (before : List Call) × (after_it : List Call) × (bytes : List ℕ) × (now : ℕ) × (cs
      ≡ before ++ issues tok.action bytes now ∷ after_it)
    × (id ≡ generate_token_id bytes)
    × (tok.expires_at ≡ now + ttl)

abbrev Traced : ExecuteGuard → ℕ → List Call → Type 0
Traced eg ttl cs =
    (id : Text) (tok : ExecuteToken) → token_at eg id ≡ some tok → WasIssued ttl cs id tok

WasIssued-later :
    (ttl : ℕ) (cs : List Call) (c : Call) (id : Text) (tok : ExecuteToken)
    → WasIssued ttl cs id tok
    → WasIssued ttl (cs ++ c ∷ []) id tok
WasIssued-later ttl cs c id tok (b, a, bytes, now, e, i, x) =
    (b, a ++ c ∷ [], bytes, now, ap (λ (l : List Call). l ++ c ∷ []) e ∙ append_assoc b _ _, i, x)

issue-Traced :
    (eg : ExecuteGuard) (cs : List Call) (action : Text) (bytes : List ℕ) (now : ℕ)
    → Traced eg eg.ttl cs
    → Traced (issue eg action bytes now).0 eg.ttl (cs ++ issues action bytes now ∷ [])
unfolding new_token
issue-Traced eg cs action bytes now t id tok h = elim (Text-discrete (generate_token_id bytes) id) [
  | yes same ↦
      let e : new_token eg action bytes now ≡ tok =
        ground (arith, token_at-issue eg action bytes now id) in
      (
        cs,
        [],
        bytes,
        now,
        (λ i. cs ++ issues (e i).action bytes now ∷ []),
        sym same,
        λ i. (sym e i).expires_at,
      )
  | no apart ↦
      WasIssued-later eg.ttl cs _ id tok
        (t id tok (ground (arith, token_at-issue eg action bytes now id)))
]

-- A redemption keeps the action and the expiry of every token.
pub redeem_found-keeps :
    (eg : ExecuteGuard) (other : Text) (now : ℕ) (o : Option ExecuteToken) (id : Text)
    (tok : ExecuteToken)
    → o ≡ token_at eg other
    → token_at (redeem_found eg other now o).0 id ≡ some tok
    → (old : ExecuteToken) × (token_at eg id ≡ some old)
      × (old.action ≡ tok.action)
      × (old.expires_at ≡ tok.expires_at)
unfolding redeem_found
redeem_found-keeps eg other now none id tok at h = (tok, h, refl, refl)
redeem_found-keeps eg other now (some held) id tok at h = elim (Text-discrete other id) [
  | yes same ↦
      let found : token_at eg id ≡ some held = ground arith in
      let put_back = get-put_self Text-discrete other (record held { redeemed = true }) eg.tokens in
      (held, found, ground (arith, put_back), ground (arith, put_back))
  | no apart ↦ (tok, sym (redeem_found-token_at eg other now (some held) id apart) ∙ h, refl, refl)
]

WasIssued-same :
    (ttl : ℕ) (cs : List Call) (id : Text) (old tok : ExecuteToken)
    → old.action ≡ tok.action
    → old.expires_at ≡ tok.expires_at
    → WasIssued ttl cs id old
    → WasIssued ttl cs id tok
WasIssued-same ttl cs id old tok act exp (b, a, bytes, since, e, i, x) =
    (b, a, bytes, since, e ∙ ap (λ (u : Text). b ++ issues u bytes since ∷ a) act, i, sym exp ∙ x)

redeem-Traced :
    (eg : ExecuteGuard) (ttl : ℕ) (cs : List Call) (other : Text) (now : ℕ)
    → Traced eg ttl cs
    → Traced (redeem eg other now).0 ttl cs
unfolding redeem
redeem-Traced eg ttl cs other now t id tok h =
    let (old, at, act, exp) = redeem_found-keeps eg other now _ id tok refl h in
    WasIssued-same ttl cs id old tok act exp (t id old at)

step-ttl : (eg : ExecuteGuard) (c : Call) → (step eg c).ttl ≡ eg.ttl
unfolding step issue redeem redeem_found
step-ttl eg (issues action bytes now) = refl
step-ttl eg (redeems id now) = redeem-ttl (token_at eg id)
  where
    redeem-ttl : (o : Option ExecuteToken) → (redeem_found eg id now o).0.ttl ≡ eg.ttl
    redeem-ttl none = refl
    redeem-ttl (some tok) = ground arith

step-Traced :
    (eg : ExecuteGuard) (past : List Call) (c : Call)
    → Traced eg eg.ttl past
    → Traced (step eg c) (step eg c).ttl (past ++ c ∷ [])
step-Traced eg past c t = rw (step-ttl eg c) (by_call c)
  where
    by_call : (d : Call) → Traced (step eg d) eg.ttl (past ++ d ∷ [])
    by_call (issues action bytes now) other tok h =
        unfold step in issue-Traced eg past action bytes now t other tok h
    by_call (redeems id now) other tok h =
        unfold step in
        WasIssued-later eg.ttl past _ other tok (redeem-Traced eg eg.ttl past id now t other tok h)

run-Traced :
    (eg : ExecuteGuard) (past cs : List Call)
    → Traced eg eg.ttl past
    → Traced (run eg cs) (run eg cs).ttl (past ++ cs)
unfolding run
run-Traced eg past [] t id tok h = rw append-nil (t id tok h)
run-Traced eg past (c ∷ cs) t id tok h =
    rw (← append_assoc past (c ∷ []) cs)
      (run-Traced (step eg c) (past ++ c ∷ []) cs (step-Traced eg past c t) id tok h)

new-Traced : (ttl : ℤ) → Traced (new_execute_guard ttl) (new_execute_guard ttl).ttl []
unfolding new_execute_guard get
new-Traced ttl id tok h = absurd (ground arith)

-- A token that is redeemed was issued: in every history of a new guard, a redemption that succeeds
-- was preceded by an issue of the same identifier, for the same action, at most the time to live
-- before.
pub redeemed-WasIssued :
    (ttl : ℤ) (cs : List Call) (id : Text) (now : ℕ) (tok : ExecuteToken)
    → let eg = run (new_execute_guard ttl) cs in
      (redeem eg id now).1 ≡ ok tok → WasIssued eg.ttl cs id tok × (now ≤ tok.expires_at)
unfolding redeem
redeemed-WasIssued ttl cs id now tok h =
    let eg = run (new_execute_guard ttl) cs in
    let (old, at, _, alive, used, _) = redeem_found_ok eg id now (token_at eg id) tok h in
    let issued = run-Traced (new_execute_guard ttl) [] cs (new-Traced ttl) id old at in
    (
      WasIssued-same eg.ttl cs id old tok (λ i. (sym used i).action) (λ i. (sym used i).expires_at)
          issued,
      subst (λ (t : ExecuteToken). now ≤ t.expires_at) (sym used) alive,
    )
