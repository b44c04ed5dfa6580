-- ===== src/Gateway/Threads/Begin.antt =====
-- What a handler has done when it begins: nothing.
use sentinel_protocol.Base.{◌≡◌, refl, true, false, none, some}
use sentinel_protocol.Gateway.{Draws}
use sentinel_protocol.Gateway.Serve.{
  Request, gates, starts_approval, confirms_approval, executes, asks_proof, asks_status,
  arms_kill_switch, disarms_kill_switch, asks_health,
}
use sentinel_protocol.Gateway.Threads.{Pc, entry}
use sentinel_protocol.Gateway.Threads.Challenges.{decided_by}
use sentinel_protocol.Gateway.Threads.Effects.{draws_of, granted_by, executed_by}

-- A handler that begins has its draws, and has granted, executed and decided nothing.
abbrev pub HasBegun : Draws → Pc → Type 0
HasBegun d p =
    (draws_of p ≡ some d) × (granted_by p ≡ none) × (executed_by p ≡ none) × (decided_by p ≡ none)

pub entry-HasBegun : (d : Draws) (r : Request) → HasBegun d (entry d r)
unfolding entry
entry-HasBegun d (gates false body) = (refl, refl, refl, refl)
entry-HasBegun d (gates true none) = (refl, refl, refl, refl)
entry-HasBegun d (gates true (some req)) = (refl, refl, refl, refl)
entry-HasBegun d (starts_approval false body) = (refl, refl, refl, refl)
entry-HasBegun d (starts_approval true none) = (refl, refl, refl, refl)
entry-HasBegun d (starts_approval true (some req)) = (refl, refl, refl, refl)
entry-HasBegun d (confirms_approval false body) = (refl, refl, refl, refl)
entry-HasBegun d (confirms_approval true none) = (refl, refl, refl, refl)
entry-HasBegun d (confirms_approval true (some req)) = (refl, refl, refl, refl)
entry-HasBegun d (executes false body) = (refl, refl, refl, refl)
entry-HasBegun d (executes true none) = (refl, refl, refl, refl)
entry-HasBegun d (executes true (some req)) = (refl, refl, refl, refl)
entry-HasBegun d (asks_proof false) = (refl, refl, refl, refl)
entry-HasBegun d (asks_proof true) = (refl, refl, refl, refl)
entry-HasBegun d (asks_status false) = (refl, refl, refl, refl)
entry-HasBegun d (asks_status true) = (refl, refl, refl, refl)
entry-HasBegun d (arms_kill_switch false reason) = (refl, refl, refl, refl)
entry-HasBegun d (arms_kill_switch true reason) = (refl, refl, refl, refl)
entry-HasBegun d (disarms_kill_switch false) = (refl, refl, refl, refl)
entry-HasBegun d (disarms_kill_switch true) = (refl, refl, refl, refl)
entry-HasBegun d asks_health = (refl, refl, refl, refl)
