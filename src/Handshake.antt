-- ===== src/Handshake.antt =====
-- The handshake between `run_connection` of src/peer.rs and `handle_peer` of src/server.rs.
pub mod Sides
pub mod Established
