-- ===== src/Backend.antt =====
-- The backend (backend/app): the inspection state machine, the threshold policy, the connector
-- executor, the quality workflow, the Deployment Packs and the release of models and packs.
pub mod Domain
pub mod Policy
pub mod Calls
pub mod Packs
pub mod Release
pub mod Connectors
pub mod Workflow
