-- ===== src/Gateway/Threads/Apart.antt =====
-- Draws are made once for a handler: if in the end no two drew the same identifier, none did before.
use sentinel_protocol.Base.{none, subst, ℕ, ◌≡◌, sym, ◌∙◌, some, arith, ℕ_discrete, ap}
use sentinel_protocol.Executor.{ExecuteGuard, generate_token_id}
use sentinel_protocol.Gateway.{World, Draws}
use sentinel_protocol.Gateway.Threads.{
  Pc, entry, advance, System, update, Step, arrives, moves, watches,
}
use sentinel_protocol.Gateway.Threads.Effects.{
  granted_by, draws_of, Touch, rests, grants, spends, advance-Touch,
}
use sentinel_protocol.Gateway.Threads.Tokens.{AllGranted}
use sentinel_protocol.Gateway.Granted.{IsHeld}

-- No two handlers draw the same identifier for a token.
abbrev pub DrawApart : (ℕ → Pc) → Type 0
DrawApart threads =
    (i j : ℕ) (d e : Draws)
    → draws_of (threads i) ≡ some d
    → draws_of (threads j) ≡ some e
    → generate_token_id d.token_bytes ≡ generate_token_id e.token_bytes
    → i ≡ j

Touch-draws :
    {eg eg' : ExecuteGuard} {old p : Pc} (d : Draws)
    → Touch eg old eg' p
    → draws_of old ≡ some d
    → draws_of p ≡ some d
Touch-draws d (rests same draws gives runs) h = draws ∙ h
Touch-draws d (grants e action next drew draws gave gives ran runs) h = draws ∙ sym drew ∙ h
Touch-draws d (spends id now tok ok_it next draws gives ran runs) h = draws ∙ h

pub update_draws :
    (threads : ℕ → Pc) (i : ℕ) (p : Pc) (j : ℕ) (d : Draws)
    → ((e : Draws) → draws_of (threads i) ≡ some e → draws_of p ≡ some e)
    → draws_of (threads j) ≡ some d
    → draws_of (update threads i p j) ≡ some d
update_draws threads i p j d keeps h = elim (ℕ_discrete i j) [
  | no apart ↦ ground arith
  | yes same ↦
      let at_i : draws_of (threads i) ≡ some d = rw same h in
      let now : draws_of p ≡ some d = keeps d at_i in ground arith
]

pub Step-draws :
    {w : World} {s t : System} (j : ℕ) (d : Draws)
    → Step w s t
    → draws_of (s.threads j) ≡ some d
    → draws_of (t.threads j) ≡ some d
Step-draws {w} {s} j d (arrives i e r free) h =
    update_draws s.threads i (entry e r) j d
      (λ e' begun. absurd (ground (arith, ap draws_of free, begun))) h
Step-draws {w} {s} j d (moves i) h =
    update_draws s.threads i (advance w s.gw (s.threads i)).1 j d
      (λ e. Touch-draws e (advance-Touch w s.gw (s.threads i))) h
Step-draws {w} {s} j d (watches now) h = h

pub Step-DrawApart :
    {w : World} {s t : System} → Step w s t → DrawApart t.threads → DrawApart s.threads
Step-DrawApart st apart i j d e di dj = apart i j d e (Step-draws i d st di) (Step-draws j e st dj)

-- No token is held under the identifier that a handler draws, until the handler grants one.
pub drawn_unheld :
    (eg : ExecuteGuard) (threads : ℕ → Pc) (i : ℕ) (d : Draws)
    → DrawApart threads
    → AllGranted eg threads
    → draws_of (threads i) ≡ some d
    → granted_by (threads i) ≡ none
    → IsHeld eg (generate_token_id d.token_bytes)
    → ⊥
drawn_unheld eg threads i d apart all drew gave held =
    let (k, e, given, drew_k, gave_k, _, id_of) = all (generate_token_id d.token_bytes) held in
    let k_is_i : k ≡ i = apart k i e d drew_k drew id_of in
    let gave_i : granted_by (threads i) ≡ some given =
      subst (λ n. granted_by (threads n) ≡ some given) k_is_i gave_k in
    absurd (ground (arith, gave, gave_i))
