-- ===== src/Chunk.antt =====
-- Chunks of a file (src/chunk.rs, src/chunk_manifest.rs, src/chunk_state.rs).
pub mod Hash
pub mod Layout
pub mod Manifest
pub mod Search
pub mod State
pub mod Reading
