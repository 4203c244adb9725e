-- ===== src/Collections.antt =====
-- The parts of `std::collections` that the program uses, as lists.
pub mod Set
pub mod Map
