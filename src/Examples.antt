-- ===== src/Examples.antt =====
-- The theorems at concrete inputs.
pub mod Values
pub mod Lifecycle
pub mod Repository
pub mod Work
pub mod Ledger
pub mod Decisions
pub mod Plans
pub mod Service
pub mod Stores
pub mod Supervision
