-- ===== src/Types.antt =====
-- src/types.rs: the protocol's own types, and src/proto.rs with proto/metalbond.proto: the types
-- that go over the wire. A `u32`, `u16` or `u8` is a number, with its range where it matters.
pub mod Address
pub mod Proto
pub mod Convert
pub mod Display
