-- ===== src/Flows.antt =====
-- The durable Flow components of flows/.
pub mod Contracts
pub mod Lifecycle
pub mod Lease
pub mod Repository
pub mod Service
pub mod Work
pub mod SideEffects
pub mod Budget
pub mod Recovery
