-- ===== src/Flows/Lifecycle.antt =====
-- flows/lifecycle.py: the lifecycle of a Flow Run and of the Agent invocations that it owns.
pub mod Invocation
pub mod State
pub mod Transitions
pub mod Replace
pub mod Parts
pub mod Inversion
pub mod Valid
pub mod Replaced
pub mod Terminated
pub mod Accepted
pub mod Steps
pub mod Invariant
pub mod Behaviour
pub mod Order
