-- ===== src/Http.antt =====
-- The HTTP side of canonical-web-server.rs: how errors are answered, who a request comes from, and
-- the routes that log in, log out, push changes and open a socket.
pub mod Errors
pub mod Extractor
pub mod Routes
pub mod Guards
pub mod Logins
pub mod Logouts
pub mod SharedAuth
pub mod Verified
pub mod Tests
