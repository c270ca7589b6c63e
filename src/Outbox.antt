-- ===== src/Outbox.antt =====
-- Delivery of the outbox: services/api/netops_api/application/outbox.py and
-- services/worker/netops_worker/outbox_publisher.py, outbox_transport.py.
pub mod Commands
pub mod Statements
pub mod Delivery
pub mod Rules
pub mod Outcomes
pub mod Steps
pub mod Inbox
pub mod Receipts
pub mod Settings
pub mod Publisher
pub mod Fates
pub mod Cycles
pub mod Traces
pub mod Transport
pub mod Chosen
pub mod Exclusion
pub mod Leases
mod Examples
