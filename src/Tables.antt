-- ===== src/Tables.antt =====
-- src/tables.rs: the bounded tables of the router.
pub mod Slots
pub mod Queue
pub mod Generations
pub mod Path
pub mod Seen
pub mod Reverse
pub mod Link
pub mod Cache
pub mod Schedule
