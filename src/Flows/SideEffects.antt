-- ===== src/Flows/SideEffects.antt =====
-- flows/side_effects.py: the evidence about external side effects.
pub mod Ledger
pub mod Evidence
pub mod Listing
