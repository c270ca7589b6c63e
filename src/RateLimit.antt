-- ===== src/RateLimit.antt =====
-- services/api/netops_api/core/rate_limit.py: the fixed-window limiter.
pub mod Windows
pub mod Bursts
mod Examples
