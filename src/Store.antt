-- ===== src/Store.antt =====
-- canonical-web-server.rs/crates/canonical-store/src/lib.rs: the access of the processes to the
-- database.
pub mod Roles
pub mod Isolation
pub mod Tests
