-- ===== src/Http.antt =====
-- http/
pub mod Request
pub mod Response
pub mod WebSocket
pub mod Session
pub mod Server
pub mod Client
