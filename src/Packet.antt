-- ===== src/Packet.antt =====
-- src/packet/mod.rs: packets as the later stages read them, and what became of them.
pub mod Segment
pub mod Decoded
pub mod Fragment
pub mod Status
mod Tests
