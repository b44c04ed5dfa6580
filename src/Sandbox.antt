-- ===== src/Sandbox.antt =====
-- goserver/sentinel_controls.go: the capability sandbox, and inferCapability of
-- goserver/sentinel_gateway.go. A Go map is an association list, and a nil map is an empty one.
pub mod Policy
use sentinel_protocol.Base.{
  Bool, true, false, ◌||◌, Option, none, some, List, [], ◌∷◌, ℕ, get, put, if◌then◌else◌,
}
use sentinel_protocol.Text.{Text, Text-discrete, text, to_lower, contains}

-- The well-known capability names.
unfoldable pub cap_shell : List ℕ
cap_shell = text "shell"

unfoldable pub cap_fs : List ℕ
cap_fs = text "fs"

unfoldable pub cap_browser : List ℕ
cap_browser = text "browser"

unfoldable pub cap_wallet : List ℕ
cap_wallet = text "wallet"

unfoldable pub cap_network : List ℕ
cap_network = text "network"

pub record CapabilitySandbox : Type 0 where
  pub allowed_caps : List (Text × List (Text × Bool))
  pub default_caps : List (Text × Bool)

unfoldable pub new_capability_sandbox : CapabilitySandbox
new_capability_sandbox = record { allowed_caps = []; default_caps = [] }

-- The loop that copies the map of defaults, key by key.
unfoldable pub copy_caps : List (Text × Bool) → List (Text × Bool) → List (Text × Bool)
copy_caps out [] = out
copy_caps out ((k, v) ∷ caps) = copy_caps (put Text-discrete k v out) caps

unfoldable pub set_defaults : CapabilitySandbox → List (Text × Bool) → CapabilitySandbox
set_defaults cs caps = record cs { default_caps = copy_caps [] caps }

abbrev or_nil : Option (List (Text × Bool)) → List (Text × Bool)
or_nil none = []
or_nil (some m) = m

-- `cs.allowedCaps[agentID][capability] = allowed`, with the map of the agent made if it is nil.
unfoldable pub write_cap : CapabilitySandbox → Text → Text → Bool → CapabilitySandbox
write_cap cs agent_id capability allowed =
    let caps = or_nil (get Text-discrete agent_id cs.allowed_caps) in
    record cs {
      allowed_caps =
          put Text-discrete agent_id (put Text-discrete capability allowed caps) cs.allowed_caps;
    }

unfoldable pub grant : CapabilitySandbox → Text → Text → CapabilitySandbox
grant cs agent_id capability = write_cap cs agent_id capability true

unfoldable pub revoke : CapabilitySandbox → Text → Text → CapabilitySandbox
revoke cs agent_id capability = write_cap cs agent_id capability false

-- The override of the agent for the capability, if there is one.
unfoldable pub override : CapabilitySandbox → Text → Text → Option Bool
override cs agent_id capability =
    get Text-discrete capability (or_nil (get Text-discrete agent_id cs.allowed_caps))

abbrev or_false : Option Bool → Bool
or_false none = false
or_false (some b) = b

unfoldable pub check : CapabilitySandbox → Text → Text → Bool
check cs agent_id capability = elim (override cs agent_id capability) [
  | some allowed ↦ allowed
  | none ↦ or_false (get Text-discrete capability cs.default_caps)
]

unfoldable pub infer_capability : Text → List ℕ
infer_capability action =
    let lower = to_lower action in
    let has = λ (word : Text). contains lower word in
    if has (text "shell") || (has (text "exec") || has (text "bash"))
    then cap_shell
    else if has (text "file") || (has (text "fs") || (has (text "read") || has (text "write")))
    then cap_fs
    else if has (text "browser") || (has (text "navigate") || has (text "click"))
    then cap_browser
    else if has (text "wallet") || (has (text "transfer") || has (text "sign"))
    then cap_wallet
    else if has (text "network") || (has (text "http") || has (text "api"))
    then cap_network
    else cap_shell
