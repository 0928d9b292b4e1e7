-- ===== src/Protocol/V03.antt =====
-- The payloads of version 0.3 (src/protocol/v03.rs).
pub mod Offer
pub mod ChunkStart
pub mod ChunkHashes
pub mod Resume
pub mod DataFrame
