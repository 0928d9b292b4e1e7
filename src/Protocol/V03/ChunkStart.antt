-- ===== src/Protocol/V03/ChunkStart.antt =====
-- `ChunkStartV03`, `encode_chunk_start_v03` and `decode_chunk_start_v03` (src/protocol/v03.rs).
pub mod Exact
use warpfile.Common.{ℕ, ◌^◌, ◌<◌, List, ◌++◌, ◌==◌, length, Result, ok, ◌>>=◌, ◌>>◌, require}
use warpfile.Bytes.BigEndian.{to_be_bytes, from_be_bytes}
use warpfile.Bytes.Slice.{slice_array}
use warpfile.Chunk.Hash.{ChunkHash, IsChunkHash}

abbrev pub v03_chunk_start_payload_length : ℕ
v03_chunk_start_payload_length = 40

pub record ChunkStartV03 : Type 0 where
  pub chunk_index : ℕ
  pub expected_hash : ChunkHash

pub data ChunkStartV03Error : Type 0 where
  invalid_payload_length : ℕ → ChunkStartV03Error

-- What the Rust types of the fields say.
pub record IsChunkStartV03 (c : ChunkStartV03) : Type 0 where
  pub chunk_index : c.chunk_index < 256 ^ 8
  pub expected_hash : IsChunkHash c.expected_hash

unfoldable pub encode_chunk_start_v03 : ChunkStartV03 → List ℕ
encode_chunk_start_v03 chunk_start =
    to_be_bytes 8 chunk_start.chunk_index ++ chunk_start.expected_hash.bytes

unfoldable pub decode_chunk_start_v03 : List ℕ → Result ChunkStartV03 ChunkStartV03Error
decode_chunk_start_v03 payload = do
  require (length payload == v03_chunk_start_payload_length)
      (invalid_payload_length (length payload))
  index_bytes ← slice_array 8 payload 0 8
  expected_hash ← slice_array 32 payload 8 (length payload)
  ok (record {
    chunk_index = from_be_bytes index_bytes;
    expected_hash = record { bytes = expected_hash };
  })
