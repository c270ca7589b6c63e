-- ===== src/Storage.antt =====
-- The PostgreSQL schema of services/api/alembic/versions, as far as the services use it.
pub mod Tables
pub mod Checks
pub mod Inserts
pub mod Laws
