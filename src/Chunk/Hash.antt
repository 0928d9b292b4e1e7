-- ===== src/Chunk/Hash.antt =====
-- `ChunkHash` (src/chunk_manifest.rs): the 32 bytes of a BLAKE3 digest.
use warpfile.Common.{ℕ, ◌≡◌, List, length}
use warpfile.Bytes.BigEndian.{IsBytes}

abbrev pub chunk_hash_length : ℕ
chunk_hash_length = 32

pub record ChunkHash : Type 0 where
  pub bytes : List ℕ

-- What the Rust type says: an array of 32 `u8`.
abbrev pub IsChunkHash : ChunkHash → Type 0
IsChunkHash h = (length h.bytes ≡ chunk_hash_length) × IsBytes h.bytes
