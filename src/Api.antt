-- ===== src/Api.antt =====
-- The HTTP routes of cases: services/api/netops_api/api/cases.py and the principal of
-- services/api/netops_api/core/auth.py.
pub mod Principals
pub mod Cases
pub mod Refusals
pub mod Stored
mod Examples
