-- ===== src/Tests.antt =====
-- The theorems at concrete packets, tables and calls.
mod Packets
mod Radio
mod Announcing
mod Routes
mod Tokens
mod Relays
mod Keys
mod Transfers
mod Sessions
mod StandIn
