-- ===== src/Server.antt =====
-- src/server.rs.
pub mod Client
pub mod Forward
pub mod Sink
pub mod Listening
