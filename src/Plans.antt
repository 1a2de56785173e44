-- ===== src/Plans.antt =====
-- models/plan.py: execution plans as dependency graphs of steps.
pub mod Steps
pub mod Graph
pub mod Visits
pub mod Cycles
pub mod Depth
pub mod Lookup
pub mod Verdict
pub mod Acyclic
pub mod Transitions
pub mod Moves
pub mod Changes
pub mod Histories
pub mod Progress
