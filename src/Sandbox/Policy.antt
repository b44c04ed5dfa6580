-- ===== src/Sandbox/Policy.antt =====
-- The sandbox refines a policy: for each agent and capability an override or none, and a default.
use sentinel_protocol.Base.{
  ◌≡◌, refl, ◌∙◌, ap, Bool, true, false, some, List, [], ◌∷◌, arith, get, put, get-put, ite,
}
use sentinel_protocol.Text.{Text, Text-discrete}
use sentinel_protocol.Sandbox.{
  CapabilitySandbox, write_cap, grant, revoke, override, check, or_nil, set_defaults,
}

override-write_cap :
    (cs : CapabilitySandbox) (a c a' c' : Text) (b : Bool)
    → override (write_cap cs a c b) a' c'
      ≡ ite
          (Text-discrete a a')
          (ite (Text-discrete c c') (some b) (override cs a' c'))
          (override cs a' c')
unfolding override write_cap
override-write_cap cs a c a' c' b = ground (
  arith,
  get-put Text-discrete a a' (put Text-discrete c b (or_nil (get Text-discrete a cs.allowed_caps)))
      cs.allowed_caps,
  get-put Text-discrete c c' b (or_nil (get Text-discrete a cs.allowed_caps)),
)

check-write_cap :
    (cs : CapabilitySandbox) (a c a' c' : Text) (b : Bool)
    → check (write_cap cs a c b) a' c'
      ≡ ite (Text-discrete a a') (ite (Text-discrete c c') b (check cs a' c')) (check cs a' c')
unfolding check write_cap
check-write_cap cs a c a' c' b = ground (arith, override-write_cap cs a c a' c' b)

-- A change of the policy of one agent.
pub data Change : Type 0 where
  grants : Text → Text → Change
  revokes : Text → Text → Change

unfoldable pub apply : CapabilitySandbox → Change → CapabilitySandbox
apply cs (grants a c) = grant cs a c
apply cs (revokes a c) = revoke cs a c

unfoldable pub apply_all : CapabilitySandbox → List Change → CapabilitySandbox
apply_all cs [] = cs
apply_all cs (x ∷ xs) = apply_all (apply cs x) xs

-- What the changes say of an agent and a capability, read as a specification: the last change that
-- names both decides, and before any such change the answer is the one given.
abbrev pub answer : Bool → Text → Text → List Change → Bool
answer before a c [] = before
answer before a c (grants a' c' ∷ xs) =
    answer (ite (Text-discrete a' a) (ite (Text-discrete c' c) true before) before) a c xs
answer before a c (revokes a' c' ∷ xs) =
    answer (ite (Text-discrete a' a) (ite (Text-discrete c' c) false before) before) a c xs

-- After any grants and revocations the sandbox answers by the last one that names the agent and
-- the capability, and without one as before: no change reaches another agent or capability.
pub check-apply_all :
    (cs : CapabilitySandbox) (xs : List Change) (a c : Text)
    → check (apply_all cs xs) a c ≡ answer (check cs a c) a c xs
unfolding apply_all apply grant revoke
check-apply_all cs [] a c = refl
check-apply_all cs (grants a' c' ∷ xs) a c =
    check-apply_all (write_cap cs a' c' true) xs a c
    ∙ ap (λ (b : Bool). answer b a c xs) (check-write_cap cs a' c' a c true)
check-apply_all cs (revokes a' c' ∷ xs) a c =
    check-apply_all (write_cap cs a' c' false) xs a c
    ∙ ap (λ (b : Bool). answer b a c xs) (check-write_cap cs a' c' a c false)

-- An override of an agent outlives a change of the defaults.
pub check-set_defaults :
    (cs : CapabilitySandbox) (caps : List (Text × Bool)) (a c : Text) (b : Bool)
    → override cs a c ≡ some b
    → check (set_defaults cs caps) a c ≡ b
unfolding check set_defaults override
check-set_defaults cs caps a c b h = ground arith
