-- ===== src/Content.antt =====
-- src/stream_content.rs: bounded storage of reassembled payload.
pub mod Config
pub mod Direction
pub mod Record
pub mod Store
pub mod Window
mod Tests
