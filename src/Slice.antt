-- ===== src/Slice.antt =====
-- src/stream_slice.rs: slices of the stored content of a stream, and how their bytes are shown.
pub mod Render
pub mod Segment
pub mod Highlight
pub mod Reader
mod Tests
