-- ===== src/Lora.antt =====
-- src/lora.rs: framing, the airtime of a frame, and the airtime limiter.
pub mod Framer
pub mod Modem
pub mod Airtime
