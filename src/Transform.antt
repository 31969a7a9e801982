-- ===== src/Transform.antt =====
-- src/stream_transform.rs: the decoders that are applied to a slice of a stream's content.
pub mod Outcome
pub mod Url
pub mod Chunked
pub mod Reader
pub mod WebSocket
pub mod Http
pub mod Plan
mod Tests
