-- ===== src/Stores.antt =====
-- The in-memory stores of stores/in_memory.py.
pub mod Conversations
pub mod Turns
pub mod Conversing
pub mod Rounds
pub mod Runs
pub mod Checkpoints
pub mod Events
pub mod Subscriptions
pub mod Passes
pub mod Streams
pub mod Artifacts
