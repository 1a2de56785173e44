-- ===== src/Supervision.antt =====
-- The supervision policies of supervision/.
pub mod Decisions
pub mod Policies
pub mod Repeats
