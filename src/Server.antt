-- ===== src/Server.antt =====
-- src/server.rs: the route server.
pub mod Channel
pub mod Peers
pub mod Actor
pub mod Events
pub mod Ownership
pub mod Delivery
pub mod Subscribers
pub mod Disconnect
pub mod Invariant
pub mod Connection
pub mod Batch
pub mod Session
pub mod Sessions
pub mod Served
