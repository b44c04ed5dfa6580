-- ===== src/Gateway/Threads/Keeping.antt =====
-- The interleaved handlers keep the ledger of tokens.
use sentinel_protocol.Base.{
  ◌++◌, err, ℕ, ◌≡◌, refl, sym, ◌∙◌, if◌then◌else◌, Option, none, some, ℕ_discrete, ite, if_pos,
  if_neg, get-put, ap,
}
use sentinel_protocol.Text.{text, Text, Text-discrete}
use sentinel_protocol.Guard.Config.{SentinelGuard}
use sentinel_protocol.Executor.{
  ExecuteToken, ExecuteGuard, issue, new_token, redeem, generate_token_id,
}
use sentinel_protocol.Executor.OneTime.{token_at, token_at-issue, redeem_found_ok}
use sentinel_protocol.OpenClaw.{OpenClawClient}
use sentinel_protocol.Gateway.{SentinelGateway, SentinelGatewayConfig, new_sentinel_gateway, World}
use sentinel_protocol.Gateway.Serve.{tick}
use sentinel_protocol.Gateway.Granted.{IsHeld, nothing_held}
use sentinel_protocol.Gateway.Threads.{
  Pc, entry, advance, System, update, Step, arrives, moves, watches, Reach, boot, later,
}
use sentinel_protocol.Gateway.Threads.Begin.{entry-HasBegun}
use sentinel_protocol.Gateway.Threads.Effects.{
  granted_by, executed_by, Touch, rests, grants, spends, advance-Touch,
}
use sentinel_protocol.Gateway.Threads.Tokens.{AllGranted, Reach-AllGranted}
use sentinel_protocol.Gateway.Threads.Apart.{DrawApart, Step-DrawApart, drawn_unheld}
use sentinel_protocol.Gateway.Threads.Once.{interleaved_executes_once}
use sentinel_protocol.Gateway.Threads.Ledger.{
  Standing, unknown, granted, executed, Ledger, Post, keeps, hands, runs, Kept, opens, posts,
  Kept-IsSound, is_known,
}

-- How a system reads as a ledger.
abbrev pub standing_of : Option ExecuteToken → Standing
standing_of none = unknown
standing_of (some tok) = if tok.redeemed then executed else granted

abbrev pub id_of : Option ExecuteToken → Option Text
id_of none = none
id_of (some tok) = some tok.id

abbrev pub ledger_of : ExecuteGuard → (ℕ → Pc) → Ledger
ledger_of eg threads = record {
  standing = λ id. standing_of (token_at eg id);
  handed = λ i. id_of (granted_by (threads i));
  ran = λ i. executed_by (threads i);
}

-- What one sees of the handlers after one of them moved.
seen_same :
    (view : Pc → Option Text) (threads : ℕ → Pc) (i : ℕ) (p : Pc) (j : ℕ)
    → view p ≡ view (threads i)
    → view (update threads i p j) ≡ view (threads j)
seen_same view threads i p j same = elim (ℕ_discrete i j) [
  | yes i_j ↦
      ap view (if_pos (ℕ_discrete i j) i_j p (threads j)) ∙ same ∙ ap (λ k. view (threads k)) i_j
  | no apart ↦ ap view (if_neg (ℕ_discrete i j) apart p (threads j))
]

seen_new :
    (view : Pc → Option Text) (threads : ℕ → Pc) (i : ℕ) (p : Pc) (id : Text) (j : ℕ)
    → view p ≡ some id
    → view (update threads i p j) ≡ ite (ℕ_discrete i j) (some id) (view (threads j))
seen_new view threads i p id j new =
    elim (ℕ_discrete i j)
      as (λ c. view (ite c p (threads j)) ≡ ite c (some id) (view (threads j))) [
        | yes same ↦ new
        | no apart ↦ refl
      ]

standing_new :
    (eg eg' : ExecuteGuard) (id other : Text) (tok : ExecuteToken) (s : Standing)
    → standing_of (some tok) ≡ s
    → token_at eg' other ≡ ite (Text-discrete id other) (some tok) (token_at eg other)
    → standing_of (token_at eg' other)
      ≡ ite (Text-discrete id other) s (standing_of (token_at eg other))
standing_new eg eg' id other tok s is at =
    ap standing_of at
    ∙ (elim (Text-discrete id other)
        as (λ c.
          standing_of (ite c (some tok) (token_at eg other))
          ≡ ite c s (standing_of (token_at eg other))) [ yes same ↦ is | no apart ↦ refl ])

-- What is not held is unknown.
unheld :
    (eg : ExecuteGuard) (id : Text) → (IsHeld eg id → ⊥) → standing_of (token_at eg id) ≡ unknown
unheld eg id free =
    elim (token_at eg id) as (λ o. (token_at eg id ≡ o) → standing_of o ≡ unknown) [
      | none ↦ λ _. refl
      | some tok ↦ λ at. absurd (free (tok, at))
    ]
      refl

advance-Post :
    (eg eg' : ExecuteGuard) (threads : ℕ → Pc) (i : ℕ) (p : Pc)
    → Touch eg (threads i) eg' p
    → DrawApart threads
    → AllGranted eg threads
    → Post (ledger_of eg threads) (ledger_of eg' (update threads i p))
unfolding redeem issue new_token
advance-Post eg eg' threads i p (rests same draws gives executes) apart all =
    keeps (λ id. ap (λ g. standing_of (token_at g id)) same)
      (λ j. seen_same (λ pc. id_of (granted_by pc)) threads i p j (ap id_of gives))
      (λ j. seen_same (λ pc. executed_by pc) threads i p j executes)
advance-Post eg eg' threads i p (grants d action next drew draws gave gives ran executes) apart
      all =
    let id = generate_token_id d.token_bytes in
    hands i id (unheld eg id (drawn_unheld eg threads i d apart all drew gave)) (ap id_of gave)
      (λ other.
        standing_new eg eg' id other (new_token eg action d.token_bytes d.issued_at) granted refl (
          ap (λ g. token_at g other) next
          ∙ token_at-issue eg action d.token_bytes d.issued_at other))
      (λ j. seen_new (λ pc. id_of (granted_by pc)) threads i p id j (ap id_of gives))
      (λ j. seen_same (λ pc. executed_by pc) threads i p j (executes ∙ sym ran))
advance-Post eg eg' threads i p (spends id now tok worked next draws gives ran executes) apart all =
    let (old, at, unused, _, used, state) = redeem_found_ok eg id now (token_at eg id) tok worked in
    runs i id (ap standing_of at ∙ ap (λ b. if b then executed else granted) unused) ran
      (λ other.
        standing_new eg eg' id other tok executed
          (ap (λ (t : ExecuteToken). if t.redeemed then executed else granted) used)
          (ap (λ g. token_at g other) (next ∙ state)
            ∙ get-put Text-discrete id other tok eg.tokens))
      (λ j. seen_same (λ pc. id_of (granted_by pc)) threads i p j (ap id_of gives))
      (λ j. seen_new (λ pc. executed_by pc) threads i p id j executes)

Step-Post :
    {w : World} {s t : System}
    → Step w s t
    → DrawApart s.threads
    → AllGranted s.gw.executor s.threads
    → Post (ledger_of s.gw.executor s.threads) (ledger_of t.gw.executor t.threads)
unfolding tick
Step-Post {w} {s} (arrives i d r free) apart all =
    let (_, none_handed, none_run, _) = entry-HasBegun d r in
    keeps (λ id. refl)
      (λ j.
        seen_same (λ pc. id_of (granted_by pc)) s.threads i (entry d r) j
          (ap id_of (none_handed ∙ sym (ap granted_by free))))
      (λ j.
        seen_same (λ pc. executed_by pc) s.threads i (entry d r) j
          (none_run ∙ sym (ap executed_by free)))
Step-Post {w} {s} (moves i) apart all =
    let (gw', p) = advance w s.gw (s.threads i) in
    advance-Post s.gw.executor gw'.executor s.threads i p (advance-Touch w s.gw (s.threads i)) apart
      all
Step-Post {w} {s} (watches now) apart all = keeps (λ id. refl) (λ j. refl) (λ j. refl)

Reach-Kept :
    {w : World} {gw : SentinelGateway} {s : System}
    → ((id : Text) → IsHeld gw.executor id → ⊥)
    → Reach w gw s
    → DrawApart s.threads
    → Kept (ledger_of s.gw.executor s.threads)
Reach-Kept {w} {gw} empty boot apart =
    posts opens (keeps (λ id. unheld gw.executor id (empty id)) (λ j. refl) (λ j. refl))
Reach-Kept empty (later r st) apart =
    let before = Step-DrawApart st apart in
    posts (Reach-Kept empty r before) (Step-Post st before (Reach-AllGranted empty r))

-- However handlers interleave, if no two of them draw the same identifier: the tokens and the
-- handlers read as a ledger that entries make from an empty one, where an entry lets a handler that
-- has handed out nothing grant an identifier that is unknown, lets one that has executed nothing
-- execute an identifier that is granted and not yet executed, or changes nothing.
pub interleaved_keeps_ledger :
    (w : World) (guard : SentinelGuard) (oc : Option OpenClawClient) (cfg : SentinelGatewayConfig)
    (s : System)
    → Reach w (new_sentinel_gateway guard oc cfg) s
    → DrawApart s.threads
    → Kept (ledger_of s.gw.executor s.threads)
unfolding new_sentinel_gateway
interleaved_keeps_ledger w guard oc cfg s r apart =
    Reach-Kept (nothing_held cfg.execute_token_ttl) r apart

-- What a handler executed was handed out by exactly one handler, no other handler executed it, and
-- from then on it is refused as already redeemed: however handlers interleave, if no two of them draw
-- the same identifier.
pub interleaved_execution_has_one_grant :
    (w : World) (guard : SentinelGuard) (oc : Option OpenClawClient) (cfg : SentinelGatewayConfig)
    (s : System) (j : ℕ) (id : Text) (now : ℕ)
    → Reach w (new_sentinel_gateway guard oc cfg) s
    → DrawApart s.threads
    → executed_by (s.threads j) ≡ some id
    → (i : ℕ) × (id_of (granted_by (s.threads i)) ≡ some id)
      × ((k : ℕ) → id_of (granted_by (s.threads k)) ≡ some id → k ≡ i)
      × ((k : ℕ) → executed_by (s.threads k) ≡ some id → k ≡ j)
      × (redeem s.gw.executor id now ≡ (s.gw.executor, err (text "token already redeemed: " ++ id)))
interleaved_execution_has_one_grant w guard oc cfg s j id now r apart ran =
    let sound = Kept-IsSound (interleaved_keeps_ledger w guard oc cfg s r apart) in
    let (i, by) = sound.source id (ap is_known (sound.spent j id ran)) in
    (
      i,
      by,
      λ k other. sound.one_hands k i id other by,
      λ k other. sound.one_runs k j id other ran,
      (interleaved_executes_once w guard oc cfg s j j id now r apart ran ran).1,
    )
