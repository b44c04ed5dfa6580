-- ===== src/Gateway/Threads/Every.antt =====
-- What holds of every handler, of how far it is and what it was asked, in whatever way the handlers
-- interleave.
use sentinel_protocol.Base.{ℕ, Option, none, some, ℕ_discrete, ite, subst}
use sentinel_protocol.Gateway.{SentinelGateway, World, Draws}
use sentinel_protocol.Gateway.Serve.{Request, tick}
use sentinel_protocol.Gateway.Runs.{Runs}
use sentinel_protocol.Gateway.Threads.{
  Pc, idle, entry, advance, System, update, Step, arrives, moves, watches, Reach, boot, later,
}
use sentinel_protocol.Gateway.Threads.Shared.{advance-Runs, Step-Runs}

-- What a handler was asked, with its draws.
abbrev pub Asked : Type 0
Asked = Option (Draws × Request)

-- The request that arrived at a handler on the way to a system.
abbrev pub asked_of : {w : World} {gw : SentinelGateway} {s : System} → Reach w gw s → ℕ → Asked
asked_of boot k = none
asked_of (later r (arrives i d req free)) k = ite (ℕ_discrete i k) (some (d, req)) (asked_of r k)
asked_of (later r (moves i)) k = asked_of r k
asked_of (later r (watches now)) k = asked_of r k

update_each :
    (P : Asked → Pc → Type 0) (threads : ℕ → Pc) (i : ℕ) (new : Asked) (p : Pc) (j : ℕ)
    (old : Asked)
    → P new p
    → P old (threads j)
    → P (ite (ℕ_discrete i j) new old) (update threads i p j)
update_each P threads i new p j old hp hj =
    elim (ℕ_discrete i j) as (λ c. P (ite c new old) (ite c p (threads j))) [
      | yes same ↦ hp
      | no apart ↦ hj
    ]

moved_each :
    (P : Asked → Pc → Type 0) (threads : ℕ → Pc) (i : ℕ) (p : Pc) (asked : ℕ → Asked) (j : ℕ)
    → P (asked i) p
    → P (asked j) (threads j)
    → P (asked j) (update threads i p j)
moved_each P threads i p asked j hp hj =
    elim (ℕ_discrete i j) as (λ c. P (asked j) (ite c p (threads j))) [
      | yes same ↦ subst (λ k. P (asked k) p) same hp
      | no apart ↦ hj
    ]

-- A fact on the gateway and one handler holds of every handler, if it holds when one begins, if a
-- handler keeps it by its own steps, and if runs of the components take it back from no handler.
module _ (w : World) (gw : SentinelGateway) (P : Asked → SentinelGateway → Pc → Type 0)
    (resting : (g : SentinelGateway) → P none g idle)
    (begins : (g : SentinelGateway) (d : Draws) (r : Request) → P (some (d, r)) g (entry d r))
    (moved : (s : System) (i : ℕ) (o : Asked)
      → Reach w gw s
      → P o s.gw (s.threads i)
      → P o (advance w s.gw (s.threads i)).0 (advance w s.gw (s.threads i)).1)
    (lasts : (g g' : SentinelGateway) (o : Asked) (p : Pc) → Runs w g g' → P o g p → P o g' p) where
  step_each :
      {s t : System} (j : ℕ) (r : Reach w gw s) (st : Step w s t)
      → ((i : ℕ) → P (asked_of r i) s.gw (s.threads i))
      → P (asked_of (later r st) j) t.gw (t.threads j)
  step_each {s} j r (arrives i d req free) all =
      update_each (λ o. P o s.gw) s.threads i (some (d, req)) (entry d req) j (asked_of r j)
        (begins s.gw d req) (all j)
  step_each {s} j r (moves i) all =
      let (gw', p) = advance w s.gw (s.threads i) in
      moved_each (λ o. P o gw') s.threads i p (asked_of r) j (moved s i (asked_of r i) r (all i))
        (lasts s.gw gw' (asked_of r j) (s.threads j) (advance-Runs w s.gw (s.threads i)) (all j))
  step_each {s} j r (watches now) all =
      lasts s.gw (tick s.gw now) (asked_of r j) (s.threads j) (Step-Runs {s = s} (watches now))
        (all j)

  pub reach_each : {s : System} (j : ℕ) (r : Reach w gw s) → P (asked_of r j) s.gw (s.threads j)
  reach_each j boot = resting gw
  reach_each j (later r st) = step_each j r st (λ i. reach_each i r)
