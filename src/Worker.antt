-- ===== src/Worker.antt =====
-- The artifact worker: services/worker/netops_worker/artifact_processing.py and
-- artifact_processing_persistence.py.
pub mod Jobs
pub mod Processor
pub mod Completion
pub mod Verified
mod Examples
