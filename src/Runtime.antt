-- ===== src/Runtime.antt =====
-- runtime/: the state machine of one execution.
pub mod StateMachine
pub mod Ends
