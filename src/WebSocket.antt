-- ===== src/WebSocket.antt =====
-- canonical-web-server.rs/src/ws/mod.rs: the sockets of an instance, the hints that its replicas
-- exchange through PostgreSQL, and the loop that serves one socket.
pub mod Hub
pub mod Capacity
pub mod Backplane
pub mod Relay
pub mod Serve
pub mod Hints
pub mod Challenge
pub mod Ending
pub mod Expiry
pub mod Tests
