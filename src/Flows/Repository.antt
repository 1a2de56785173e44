-- ===== src/Flows/Repository.antt =====
-- flows/repository.py: the in-memory store of Flow Runs, their events and their leases.
pub mod Store
pub mod Execution
pub mod Inversion
pub mod Fencing
pub mod Consistent
pub mod Preserved
pub mod History
pub mod Holding
