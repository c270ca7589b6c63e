-- ===== src/Feed.antt =====
-- The event feed: services/api/netops_api/application/event_feed.py.
pub mod Statements
pub mod Read
pub mod Conversion
pub mod Slices
pub mod Replay
pub mod Isolation
mod Examples
