-- ===== src/Cases.antt =====
-- services/api/netops_api/application/cases.py: the case repository and the case service.
pub mod Commands
pub mod Statements
pub mod History
pub mod Transitions
pub mod Creation
pub mod Schema
pub mod Persisted
pub mod Consistency
pub mod Preservation
pub mod Recorded
pub mod Created
pub mod Idempotency
pub mod Concurrency
pub mod Listing
pub mod Pages
pub mod Walk
pub mod Detail
mod Examples
