-- ===== src/Models.antt =====
-- The contracts of models/: statuses, token usage, JSON values, attachments and artifacts.
pub mod Json
pub mod Status
pub mod Usage
pub mod Artifact
pub mod Event
pub mod Message
pub mod Run
