-- ===== src/Flows/Service.antt =====
-- flows/service.py: the lifecycle of a Flow Run over the repository.
pub mod Drafts
pub mod Service
pub mod Calls
pub mod Ends
pub mod Sound
pub mod Histories
