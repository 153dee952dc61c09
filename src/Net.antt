-- ===== src/Net.antt =====
-- src/net: the tables of the server, and the reading of lines.
pub mod Server
pub mod Read
