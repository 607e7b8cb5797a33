-- ===== src/Backend/Workflow.antt =====
-- The quality workflow of backend/app/services.py: inference, review, incidents, external actions and
-- the outbox.
pub mod Tables
pub mod Session
pub mod Environment
pub mod Inference
pub mod Actions
pub mod Incidents
pub mod Reviews
pub mod Outbox
pub mod Keeping
pub mod Intake
pub mod Operations
pub mod Steps
pub mod Tracked
pub mod History
pub mod Filing
pub mod Leading
pub mod Stuck
pub mod Locking
mod Tests
pub mod Safely
pub mod Routed
