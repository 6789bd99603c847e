-- ===== src/Quote.antt =====
-- The quotes of canonical-web-server.rs: the forms of canonical-web-server.rs/src/routes/quote.rs, and
-- the client of the quote service in canonical-web-server.rs/src/quote_api.rs.
pub mod Forms
pub mod Client
pub mod Checks
pub mod Tests
