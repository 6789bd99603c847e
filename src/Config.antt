-- ===== src/Config.antt =====
-- canonical-web-server.rs/crates/canonical-config/src/lib.rs: how the server, the migrations and the
-- session revoker read their configuration from the environment.
pub mod Values
pub mod Urls
pub mod Load
pub mod Safety
pub mod Loaded
pub mod Keys
pub mod Tests
