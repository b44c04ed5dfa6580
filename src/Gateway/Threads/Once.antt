-- ===== src/Gateway/Threads/Once.antt =====
-- A token is executed by one handler only, however the handlers interleave.
use sentinel_protocol.Base.{
  ℕ, ◌≡◌, sym, ◌∙◌, ◌⊎◌, inl, inr, Option, none, some, arith, ℕ_discrete, ap, subst, ◌++◌, Fallible,
  ok, err,
}
use sentinel_protocol.Text.{Text, Text-discrete, text}
use sentinel_protocol.Guard.Config.{SentinelGuard}
use sentinel_protocol.Executor.{ExecuteToken, ExecuteGuard, issue, redeem, generate_token_id}
use sentinel_protocol.Executor.OneTime.{
  token_at, token_at-issue, IsSpent, redeem_spent, redeem_spends, redeem_found-IsSpent,
}
use sentinel_protocol.OpenClaw.{OpenClawClient}
use sentinel_protocol.Gateway.{
  SentinelGateway, SentinelGatewayConfig, new_sentinel_gateway, World, Draws,
}
use sentinel_protocol.Gateway.Serve.{tick}
use sentinel_protocol.Gateway.Granted.{IsHeld, nothing_held}
use sentinel_protocol.Gateway.Threads.{
  Pc, entry, advance, System, update, Step, arrives, moves, watches, Reach, boot, later,
}
use sentinel_protocol.Gateway.Threads.Begin.{entry-HasBegun}
use sentinel_protocol.Gateway.Threads.Effects.{
  draws_of, granted_by, executed_by, Touch, rests, grants, spends, advance-Touch,
}
use sentinel_protocol.Gateway.Threads.Tokens.{AllGranted, Reach-AllGranted}
use sentinel_protocol.Gateway.Threads.Apart.{DrawApart, Step-DrawApart, drawn_unheld}

-- A handler executed only a token that is spent, and no two executed the same.
abbrev AllSpent : ExecuteGuard → (ℕ → Pc) → Type 0
AllSpent eg threads = (i : ℕ) (id : Text) → executed_by (threads i) ≡ some id → IsSpent eg id

abbrev pub AllOnce : (ℕ → Pc) → Type 0
AllOnce threads =
    (i j : ℕ) (id : Text)
    → executed_by (threads i) ≡ some id
    → executed_by (threads j) ≡ some id
    → i ≡ j

-- What the handlers executed after one of them moved.
update_executed :
    (threads : ℕ → Pc) (i : ℕ) (p : Pc) (j : ℕ) (id : Text)
    → executed_by (update threads i p j) ≡ some id
    → ((i ≡ j) × (executed_by p ≡ some id)) ⊎ (executed_by (threads j) ≡ some id)
update_executed threads i p j id h = elim (ℕ_discrete i j) [
  | yes same ↦ inl (same, ground arith)
  | no apart ↦ inr (ground arith)
]

-- A move that executes nothing new.
same_executed :
    (threads : ℕ → Pc) (i : ℕ) (p : Pc) (j : ℕ) (id : Text)
    → executed_by p ≡ executed_by (threads i)
    → executed_by (update threads i p j) ≡ some id
    → executed_by (threads j) ≡ some id
same_executed threads i p j id runs h = elim (update_executed threads i p j id h) [
  | inr before ↦ before
  | inl (same, at_p) ↦ subst (λ k. executed_by (threads k) ≡ some id) same (sym runs ∙ at_p)
]

same-AllOnce :
    (threads : ℕ → Pc) (i : ℕ) (p : Pc)
    → executed_by p ≡ executed_by (threads i)
    → AllOnce threads
    → AllOnce (update threads i p)
same-AllOnce threads i p runs once j k id hj hk =
    once j k id (same_executed threads i p j id runs hj) (same_executed threads i p k id runs hk)

issue-IsSpent :
    (eg : ExecuteGuard) (threads : ℕ → Pc) (i : ℕ) (d : Draws) (action id : Text)
    → DrawApart threads
    → AllGranted eg threads
    → draws_of (threads i) ≡ some d
    → granted_by (threads i) ≡ none
    → IsSpent eg id
    → IsSpent (issue eg action d.token_bytes d.issued_at).0 id
issue-IsSpent eg threads i d action id apart all drew gave (tok, at, spent) =
    elim (Text-discrete (generate_token_id d.token_bytes) id) [
      | no other ↦
          (tok, ground (arith, token_at-issue eg action d.token_bytes d.issued_at id), spent)
      | yes same ↦
          let held : IsHeld eg (generate_token_id d.token_bytes) =
            (tok, ap (λ k. token_at eg k) same ∙ at) in
          absurd (drawn_unheld eg threads i d apart all drew gave held)
    ]

advance-AllSpent :
    (eg eg' : ExecuteGuard) (threads : ℕ → Pc) (i : ℕ) (p : Pc)
    → Touch eg (threads i) eg' p
    → DrawApart threads
    → AllGranted eg threads
    → AllSpent eg threads
    → AllSpent eg' (update threads i p)
unfolding redeem
advance-AllSpent eg eg' threads i p (rests same draws gives runs) apart all spent j id h =
    subst (λ g. IsSpent g id) (sym same) (spent j id (same_executed threads i p j id runs h))
advance-AllSpent eg eg' threads i p (grants d action next drew draws gave gives ran runs) apart all
      spent j id h =
    subst (λ g. IsSpent g id) (sym next)
      (issue-IsSpent eg threads i d action id apart all drew gave
        (spent j id (same_executed threads i p j id (runs ∙ sym ran) h)))
advance-AllSpent eg eg' threads i p (spends other now tok ok_it next draws gives ran runs) apart all
      spent j id h =
    subst (λ g. IsSpent g id) (sym next)
      (elim (update_executed threads i p j id h) [
        | inl (same, at_p) ↦
            let same_one : some other ≡ some id = sym runs ∙ at_p in
            let same_id : other ≡ id = ground (arith, same_one) in
            subst (IsSpent (redeem eg other now).0) same_id (redeem_spends eg other now tok ok_it)
        | inr before ↦ redeem_found-IsSpent eg other now _ id (spent j id before)
      ])

-- Before a redemption that succeeds, no handler executed the token.
not_executed :
    (eg : ExecuteGuard) (threads : ℕ → Pc) (id : Text) (now : ℕ) (tok : ExecuteToken) (j : ℕ)
    → (redeem eg id now).1 ≡ ok tok
    → AllSpent eg threads
    → executed_by (threads j) ≡ some id
    → ⊥
not_executed eg threads id now tok j ok_it spent h =
    let refused : (redeem eg id now).1 ≡ err (text "token already redeemed: " ++ id) =
      ap (λ (r : ExecuteGuard × Fallible ExecuteToken). r.1)
        (redeem_spent eg id now (spent j id h)) in
    absurd (ground (arith, refused, ok_it))

advance-AllOnce :
    (eg eg' : ExecuteGuard) (threads : ℕ → Pc) (i : ℕ) (p : Pc)
    → Touch eg (threads i) eg' p
    → AllSpent eg threads
    → AllOnce threads
    → AllOnce (update threads i p)
advance-AllOnce eg eg' threads i p (rests same draws gives runs) spent once j k id hj hk =
    same-AllOnce threads i p runs once j k id hj hk
advance-AllOnce eg eg' threads i p (grants d action next drew draws gave gives ran runs) spent once
      j k id hj hk =
    same-AllOnce threads i p (runs ∙ sym ran) once j k id hj hk
advance-AllOnce eg eg' threads i p (spends other now tok ok_it next draws gives ran runs) spent once
      j k id hj hk =
    elim (update_executed threads i p j id hj) [
      | inl (i_j, at_p) ↦ elim (update_executed threads i p k id hk) [
        | inl (i_k, _) ↦ sym i_j ∙ i_k
        | inr before ↦ absurd (earlier k (sym runs ∙ at_p) before)
      ]
      | inr bj ↦ elim (update_executed threads i p k id hk) [
        | inl (i_k, at_p) ↦ absurd (earlier j (sym runs ∙ at_p) bj)
        | inr bk ↦ once j k id bj bk
      ]
    ]
  where
    earlier : (n : ℕ) → some other ≡ some id → executed_by (threads n) ≡ some id → ⊥
    earlier n same before = not_executed eg threads other now tok n ok_it spent (before ∙ sym same)

Step-AllOnce :
    {w : World} {s t : System}
    → Step w s t
    → DrawApart s.threads
    → AllGranted s.gw.executor s.threads
    → AllSpent s.gw.executor s.threads × AllOnce s.threads
    → AllSpent t.gw.executor t.threads × AllOnce t.threads
unfolding tick
Step-AllOnce {w} {s} (arrives i d r free) apart all (spent, once) =
    let (_, _, fresh, _) = entry-HasBegun d r in
    let runs : executed_by (entry d r) ≡ executed_by (s.threads i) =
      fresh ∙ sym (ap executed_by free) in
    (
      λ j id h. spent j id (same_executed s.threads i (entry d r) j id runs h),
      same-AllOnce s.threads i (entry d r) runs once,
    )
Step-AllOnce {w} {s} (moves i) apart all (spent, once) =
    let (gw', p) = advance w s.gw (s.threads i) in
    let touch = advance-Touch w s.gw (s.threads i) in
    (
      advance-AllSpent s.gw.executor gw'.executor s.threads i p touch apart all spent,
      advance-AllOnce s.gw.executor gw'.executor s.threads i p touch spent once,
    )
Step-AllOnce {w} {s} (watches now) apart all (spent, once) = (spent, once)

Reach-AllOnce :
    {w : World} {gw : SentinelGateway} {s : System}
    → ((id : Text) → IsHeld gw.executor id → ⊥)
    → Reach w gw s
    → DrawApart s.threads
    → AllSpent s.gw.executor s.threads × AllOnce s.threads
Reach-AllOnce empty boot apart =
    (λ i id h. absurd (ground (arith, h)), λ i j id h. absurd (ground (arith, h)))
Reach-AllOnce empty (later r st) apart =
    Step-AllOnce st (Step-DrawApart st apart) (Reach-AllGranted empty r)
      (Reach-AllOnce empty r (Step-DrawApart st apart))

-- However handlers interleave, if no two of them draw the same identifier, then two that execute the
-- same token are one, and from then on the token is refused as already redeemed.
pub interleaved_executes_once :
    (w : World) (guard : SentinelGuard) (oc : Option OpenClawClient) (cfg : SentinelGatewayConfig)
    (s : System) (i j : ℕ) (id : Text) (now : ℕ)
    → Reach w (new_sentinel_gateway guard oc cfg) s
    → DrawApart s.threads
    → executed_by (s.threads i) ≡ some id
    → executed_by (s.threads j) ≡ some id
    → (i ≡ j)
      × (redeem s.gw.executor id now ≡ (s.gw.executor, err (text "token already redeemed: " ++ id)))
unfolding new_sentinel_gateway
interleaved_executes_once w guard oc cfg s i j id now r apart hi hj =
    let (spent, once) = Reach-AllOnce (nothing_held cfg.execute_token_ttl) r apart in
    (once i j id hi hj, redeem_spent s.gw.executor id now (spent i id hi))
