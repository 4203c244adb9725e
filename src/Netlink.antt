-- ===== src/Netlink.antt =====
-- src/netlink.rs: the routes in the tables of the kernel.
pub mod Rtnetlink
pub mod Config
pub mod Kernel
pub mod Matches
pub mod Remove
pub mod Cleanup
pub mod RoundTrip
