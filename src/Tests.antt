-- ===== src/Tests.antt =====
-- Runs of the model on concrete inputs, and the theorems at them.
pub mod Fixtures
pub mod Tokens
pub mod Approvals
pub mod Controls
pub mod Detection
pub mod Chains
pub mod Gateways
pub mod Enforcements
pub mod Modes
pub mod Pair
pub mod Threads
pub mod Decisions
pub mod Readings
pub mod Proxy
