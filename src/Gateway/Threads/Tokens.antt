-- ===== src/Gateway/Threads/Tokens.antt =====
-- Execution tokens under interleaved handlers: what redeems was granted by a handler that has
-- finished, and is executed by one handler only.
use sentinel_protocol.Base.{
  ℕ, ◌≡◌, refl, ◌∙◌, inl, inr, Option, none, some, arith, ℕ_discrete, if_pos, ap, subst, ok,
}
use sentinel_protocol.Text.{Text}
use sentinel_protocol.Guard.Config.{SentinelGuard}
use sentinel_protocol.Executor.{
  ExecuteToken, ExecuteGuard, issue, new_token, redeem, generate_token_id,
}
use sentinel_protocol.Executor.OneTime.{token_at, redeem_found_ok}
use sentinel_protocol.OpenClaw.{OpenClawClient}
use sentinel_protocol.Gateway.{
  SentinelGateway, SentinelGatewayConfig, new_sentinel_gateway, World, Draws,
}
use sentinel_protocol.Gateway.Serve.{tick}
use sentinel_protocol.Gateway.Granted.{IsHeld, issue-Accounted, redeem-Accounted, nothing_held}
use sentinel_protocol.Gateway.Threads.{
  Pc, entry, advance, System, update, Step, arrives, moves, watches, Reach, boot, later,
}
use sentinel_protocol.Gateway.Threads.Effects.{
  draws_of, granted_by, Touch, rests, grants, spends, advance-Touch,
}

-- A handler that has finished replied with a token of the identifier, which it drew.
abbrev pub GrantedIn : (ℕ → Pc) → Text → Type 0
GrantedIn threads id =
    (k : ℕ) × (d : Draws) × (tok : ExecuteToken) × (draws_of (threads k) ≡ some d)
    × (granted_by (threads k) ≡ some tok)
    × (tok.id ≡ id)
    × (generate_token_id d.token_bytes ≡ id)

abbrev pub AllGranted : ExecuteGuard → (ℕ → Pc) → Type 0
AllGranted eg threads = (id : Text) → IsHeld eg id → GrantedIn threads id

pub update_self : (threads : ℕ → Pc) (i : ℕ) (p : Pc) → update threads i p i ≡ p
update_self threads i p = if_pos (ℕ_discrete i i) refl p (threads i)

-- A grant survives the move of a handler that keeps what it granted.
GrantedIn-update :
    (threads : ℕ → Pc) (i : ℕ) (p : Pc) (id : Text)
    → ((tok : ExecuteToken)
        → granted_by (threads i) ≡ some tok
        → (draws_of p ≡ draws_of (threads i)) × (granted_by p ≡ some tok))
    → GrantedIn threads id
    → GrantedIn (update threads i p) id
GrantedIn-update threads i p id keeps (k, d, tok, drew, gave, named, id_of) =
    elim (ℕ_discrete i k) [
      | no apart ↦ (k, d, tok, ground arith, ground arith, named, id_of)
      | yes same ↦
          let gave_i : granted_by (threads i) ≡ some tok = rw same gave in
          let (same_draws, still) = keeps tok gave_i in
          (k, d, tok, ground arith, ground arith, named, id_of)
    ]

-- The handler at i grants the token itself.
GrantedIn-self :
    (threads : ℕ → Pc) (i : ℕ) (p : Pc) (d : Draws) (tok : ExecuteToken) (id : Text)
    → draws_of p ≡ some d
    → granted_by p ≡ some tok
    → tok.id ≡ id
    → generate_token_id d.token_bytes ≡ id
    → GrantedIn (update threads i p) id
GrantedIn-self threads i p d tok id draws gives named id_of = (
  i,
  d,
  tok,
  rw (update_self threads i p) draws,
  rw (update_self threads i p) gives,
  named,
  id_of,
)

-- A handler that has granted nothing keeps whatever it granted.
nothing_kept :
    (old p : Pc) (tok : ExecuteToken)
    → granted_by old ≡ none
    → granted_by old ≡ some tok
    → (draws_of p ≡ draws_of old) × (granted_by p ≡ some tok)
nothing_kept old p tok gave given = absurd (ground (arith, gave, given))

advance-AllGranted :
    (eg eg' : ExecuteGuard) (threads : ℕ → Pc) (i : ℕ) (p : Pc)
    → Touch eg (threads i) eg' p
    → AllGranted eg threads
    → AllGranted eg' (update threads i p)
unfolding redeem issue new_token
advance-AllGranted eg eg' threads i p (rests same draws gives runs) all id held =
    GrantedIn-update threads i p id (λ tok gave. (draws, gives ∙ gave))
      (all id (subst (λ g. IsHeld g id) same held))
advance-AllGranted eg eg' threads i p (grants d action next drew draws gave gives ran runs) all id
      held =
    elim (issue-Accounted eg id action d.token_bytes d.issued_at
      (subst (λ g. IsHeld g id) next held)) [
        | inl before ↦
            GrantedIn-update threads i p id (λ tok given. nothing_kept (threads i) p tok gave given)
              (all id before)
        | inr (tok, is_it, named) ↦
            GrantedIn-self threads i p d tok id draws (gives ∙ is_it) named (ground arith)
      ]
advance-AllGranted eg eg' threads i p (spends other now tok h next draws gives ran runs) all id
      held =
    elim (redeem-Accounted eg id other now none (subst (λ g. IsHeld g id) next held)) [
      | inl before ↦
          GrantedIn-update threads i p id (λ tok' gave. (draws, gives ∙ gave)) (all id before)
      | inr (tok', impossible, _) ↦ absurd (ground arith)
    ]

Step-AllGranted :
    {w : World} {s t : System}
    → Step w s t
    → AllGranted s.gw.executor s.threads
    → AllGranted t.gw.executor t.threads
unfolding tick
Step-AllGranted {w} {s} (arrives i d r free) all id held =
    GrantedIn-update s.threads i (entry d r) id
      (λ tok given. nothing_kept (s.threads i) (entry d r) tok (ap granted_by free) given)
      (all id held)
Step-AllGranted {w} {s} (moves i) all id held =
    let (gw', p) = advance w s.gw (s.threads i) in
    advance-AllGranted s.gw.executor gw'.executor s.threads i p (advance-Touch w s.gw (s.threads i))
      all id held
Step-AllGranted {w} {s} (watches now) all id held = all id held

pub Reach-AllGranted :
    {w : World} {gw : SentinelGateway} {s : System}
    → ((id : Text) → IsHeld gw.executor id → ⊥)
    → Reach w gw s
    → AllGranted s.gw.executor s.threads
Reach-AllGranted empty boot id held = absurd (empty id held)
Reach-AllGranted empty (later r st) id held = Step-AllGranted st (Reach-AllGranted empty r) id held

-- Whatever handlers are in flight and however they interleave: a token that redeems is in the reply
-- of a handler that has finished, which drew the token's identifier.
pub interleaved_redeemed_was_granted :
    (w : World) (guard : SentinelGuard) (oc : Option OpenClawClient) (cfg : SentinelGatewayConfig)
    (s : System) (id : Text) (now : ℕ) (tok : ExecuteToken)
    → Reach w (new_sentinel_gateway guard oc cfg) s
    → (redeem s.gw.executor id now).1 ≡ ok tok
    → GrantedIn s.threads id
unfolding redeem new_sentinel_gateway
interleaved_redeemed_was_granted w guard oc cfg s id now tok r h =
    let eg = s.gw.executor in
    let (old, at, _, _, _, _) = redeem_found_ok eg id now (token_at eg id) tok h in
    Reach-AllGranted (nothing_held cfg.execute_token_ttl) r id (old, at)
