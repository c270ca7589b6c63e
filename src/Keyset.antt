-- ===== src/Keyset.antt =====
-- Reading a table page by page along a strict order of its rows.
pub mod Order
pub mod Members
pub mod Sort
pub mod Pages
