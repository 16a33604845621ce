-- ===== src/Announce.antt =====
-- Announces: the cap per interface, the admission of received ones, and the durable order of one's
-- own.
pub mod Gate
pub mod Admission
pub mod State
