-- ===== src/Client.antt =====
-- src/client.rs: the client of one or more servers.
pub mod Tracker
pub mod Dedup
pub mod Api
pub mod Wait
pub mod Connect
