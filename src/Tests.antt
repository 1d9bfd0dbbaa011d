-- ===== src/Tests.antt =====
-- Runs on concrete data, and the theorems applied to them.
pub mod Story
pub mod Dispatch
pub mod Scheduler
pub mod Authorization
pub mod Workflow
pub mod Orchestration
pub mod Chain
pub mod Application
pub mod Delivery
