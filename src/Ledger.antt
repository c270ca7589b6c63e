-- ===== src/Ledger.antt =====
-- The artifact processing ledger: services/api/netops_api/application/artifact_processing.py and
-- the table of services/api/alembic/versions/20260716_05_artifact_processing_ledger.py.
pub mod Tables
pub mod Trigger
pub mod Commands
pub mod Record
pub mod Branches
pub mod Guarded
pub mod Latest
pub mod Outcomes
pub mod Once
mod Examples
