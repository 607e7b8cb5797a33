-- ===== src/Backend/Release.antt =====
-- The release of models and Deployment Packs (backend/app/services.py, with the evidence check of
-- backend/app/qualification.py): datasets are registered and revoked, evidence is registered,
-- evaluated, approved and activated by different people, and a tenant has one active pack.
pub mod Tables
pub mod Evidence
pub mod Qualifications
pub mod Decisions
pub mod Deployments
pub mod Datasets
pub mod Rows
pub mod Switching
pub mod Lifecycle
pub mod Refines
pub mod Runs
mod Tests
