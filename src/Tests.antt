-- ===== src/Tests.antt =====
-- Applications of the theorems to concrete values, with instances of the interfaces.
pub mod Data
pub mod Routes
pub mod Clients
pub mod Servers
pub mod WireData
pub mod Wires
pub mod Peers
pub mod Tables
pub mod Kernels
pub mod Waits
pub mod Sessions
pub mod Announcements
