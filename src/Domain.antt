-- ===== src/Domain.antt =====
-- services/api/netops_api/domain: the case state machine.
pub mod States
pub mod Cases
pub mod Guards
pub mod Permitted
pub mod Decision
pub mod Refusals
pub mod Lifecycle
mod Examples
