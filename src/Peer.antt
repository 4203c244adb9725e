-- ===== src/Peer.antt =====
-- src/peer.rs: the client's connection to one server.
pub mod Received
pub mod Session
pub mod Task
pub mod Sync
pub mod Invariant
pub mod Stream
pub mod Resume
