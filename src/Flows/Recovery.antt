-- ===== src/Flows/Recovery.antt =====
-- flows/recovery.py: pinned definitions and the decisions on recovery.
pub mod Registry
pub mod Policy
pub mod Decisions
pub mod Resolution
pub mod Handler
pub mod Handling
