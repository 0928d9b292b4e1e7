-- ===== src/Protocol/V03/ChunkHashes.antt =====
-- `ChunkHashRecord`, `ChunkHashesBatch`, `encode_chunk_hashes` and `decode_chunk_hashes`
-- (src/protocol/v03.rs).
pub mod Records
pub mod Exact
use warpfile.Common.{
  ℕ, zero, suc, ◌+◌, ◌*◌, ◌/◌, ◌-◌, ◌^◌, ◌<◌, List, [], ◌∷◌, ◌++◌, ◌==◌, ltb, leb,
}
use warpfile.Common.{length, take, drop, All, Option, none, some}
use warpfile.Common.{Result, ok, ◌>>=◌, ◌>>◌, require, ok_or}
use warpfile.Bytes.BigEndian.{to_be_bytes, from_be_bytes}
use warpfile.Bytes.Slice.{slice, slice_array}
use warpfile.Bytes.Words.{checked_add, checked_mul}
use warpfile.Protocol.Frame.{max_payload_length}
use warpfile.Chunk.Hash.{ChunkHash, IsChunkHash}

abbrev pub chunk_hash_record_length : ℕ
chunk_hash_record_length = 40

pub record ChunkHashRecord : Type 0 where
  pub chunk_index : ℕ
  pub hash : ChunkHash

pub record ChunkHashesBatch : Type 0 where
  pub records : List ChunkHashRecord

pub data ChunkHashesError : Type 0 where
  record_count_too_large : ℕ → ChunkHashesError
  payload_too_large : ℕ → ChunkHashesError
  invalid_payload_length : ChunkHashesError

-- What the Rust types of the fields say.
pub record IsChunkHashRecord (r : ChunkHashRecord) : Type 0 where
  pub chunk_index : r.chunk_index < 256 ^ 8
  pub hash : IsChunkHash r.hash

unfoldable pub record_bytes : ChunkHashRecord → List ℕ
record_bytes r = to_be_bytes 8 r.chunk_index ++ r.hash.bytes

-- The loop of `encode_chunk_hashes`.
unfoldable pub records_bytes : List ChunkHashRecord → List ℕ
records_bytes [] = []
records_bytes (r ∷ rs) = record_bytes r ++ records_bytes rs

-- `CHUNK_HASH_RECORD_LENGTH.checked_mul(count).and_then(|length| length.checked_add(4))`
unfoldable pub checked_length : ℕ → Option ℕ
checked_length count = elim (checked_mul chunk_hash_record_length count) [
  | none ↦ none
  | some n ↦ checked_add n 4
]

unfoldable pub encode_chunk_hashes : ChunkHashesBatch → Result (List ℕ) ChunkHashesError
encode_chunk_hashes batch = do
  let count = length batch.records
  require (leb count (2 ^ 32 - 1)) (record_count_too_large count)
  payload_length ← ok_or (checked_length count) invalid_payload_length
  require (leb payload_length max_payload_length) (payload_too_large payload_length)
  ok (to_be_bytes 4 count ++ records_bytes batch.records)

-- The first `k` pieces of `as_chunks`.
unfoldable pub pieces : ℕ → ℕ → List ℕ → List (List ℕ)
pieces zero size bytes = []
pieces (suc k) size bytes = take size bytes ∷ pieces k size (drop size bytes)

-- `bytes.as_chunks::<CHUNK_HASH_RECORD_LENGTH>().0`
unfoldable pub as_chunks : List ℕ → List (List ℕ)
as_chunks bytes = pieces (length bytes / chunk_hash_record_length) chunk_hash_record_length bytes

unfoldable pub decode_record : List ℕ → Result ChunkHashRecord ChunkHashesError
decode_record bytes = do
  index_bytes ← slice_array 8 bytes 0 8
  hash ← slice_array 32 bytes 8 (length bytes)
  ok (record { chunk_index = from_be_bytes index_bytes; hash = record { bytes = hash } })

-- The loop of `decode_chunk_hashes`.
unfoldable pub decode_records : List (List ℕ) → Result (List ChunkHashRecord) ChunkHashesError
decode_records [] = ok []
decode_records (bytes ∷ rest) = do r ← decode_record bytes; rs ← decode_records rest; ok (r ∷ rs)

unfoldable pub decode_chunk_hashes : List ℕ → Result ChunkHashesBatch ChunkHashesError
decode_chunk_hashes payload = do
  require (leb 4 (length payload)) invalid_payload_length
  require (leb (length payload) max_payload_length) (payload_too_large (length payload))
  count_bytes ← slice_array 4 payload 0 4
  let record_count = from_be_bytes count_bytes
  expected_length ← ok_or (checked_length record_count) invalid_payload_length
  require (length payload == expected_length) invalid_payload_length
  record_area ← slice payload 4 (length payload)
  records ← decode_records (as_chunks record_area)
  ok (record { records = records })
