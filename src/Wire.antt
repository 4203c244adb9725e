-- ===== src/Wire.antt =====
-- src/wire.rs: the messages of the protocol and their wire format.
pub mod Message
pub mod Codec
pub mod Framing
