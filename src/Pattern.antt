-- ===== src/Pattern.antt =====
-- src/pattern.rs: the patterns that are searched in the stored content of the streams.
pub mod Hex
pub mod Matchers
pub mod Set
pub mod Engine
mod Tests
