-- ===== src/Store.antt =====
-- The database behind the services, and the programs that talk to it.
pub mod Tables
pub mod Exec
pub mod Redis
pub mod Laws
pub mod Preserve
pub mod Sample
