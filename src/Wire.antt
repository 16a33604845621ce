-- ===== src/Wire.antt =====
-- src/wire.rs: the packet header, its flags and context, and the packet hash.
pub mod Flags
pub mod Context
pub mod Header
pub mod Hash
