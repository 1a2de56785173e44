-- ===== src/Flows/Work.antt =====
-- flows/work.py: durable work items, their deliveries to workers and their reviews.
pub mod Items
pub mod Source
pub mod Delivery
pub mod Choice
pub mod Life
pub mod Changes
pub mod Calls
pub mod History
pub mod Fencing
pub mod Delivered
pub mod Exclusion
pub mod Claims
pub mod Idempotence
