-- ===== src/CiscoIos.antt =====
-- The Cisco IOS IPsec parser and its Phase 2 validator:
-- services/api/netops_api/parsers/cisco_ios and services/api/netops_api/validators.
pub mod Models
pub mod Patterns
pub mod Parser
pub mod Lines
pub mod Validator
pub mod Lifetimes
pub mod Pairing
pub mod Verdicts
pub mod Blocks
pub mod Grounded
mod Examples
