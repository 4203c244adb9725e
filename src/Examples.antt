-- ===== src/Examples.antt =====
-- examples/client.rs, the command line client. Announcement is what its texts mean, Written the
-- texts that are read as they were meant, Program what it does on a client and on the kernel's
-- routes; Announced and Documented are on the routes that it announces.
pub mod Announcement
pub mod Written
pub mod Program
pub mod Announced
pub mod Documented
