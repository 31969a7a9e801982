-- ===== src/Flow.antt =====
-- src/flow/mod.rs: flows, their TCP reassembly, and the bounded flow table.
pub mod Seq
pub mod Chunk
pub mod Config
pub mod Stats
pub mod Payload
pub mod Stream
pub mod Buffer
pub mod Direction
pub mod Tcp
pub mod Entry
pub mod Route
pub mod Table
mod Tests
