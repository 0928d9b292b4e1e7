-- ===== src/Chunk/Layout.antt =====
-- `ChunkLayout` and `ChunkRange` (src/chunk.rs): a file cut into chunks of one size, the last of
-- which may be shorter.
pub mod Ranges
pub mod Cover
use warpfile.Common.{ℕ, ◌+◌, ◌*◌, ◌/◌, ◌%◌, ◌<◌, min, Bool, ◌==◌, ltb, if◌then◌else◌}
use warpfile.Common.{Option, none, some, Result, ok, ◌>>=◌, ◌>>◌, require, not}
use warpfile.Bytes.Words.{IsU64, checked_mul, checked_sub}

-- `chunk_size` is a `NonZeroU64`.
pub record ChunkLayout : Type 0 where
  pub file_size : ℕ
  pub chunk_size : ℕ

pub record ChunkRange : Type 0 where
  pub index : ℕ
  pub offset : ℕ
  pub length : ℕ

pub data ChunkLayoutError : Type 0 where
  zero_chunk_size : ChunkLayoutError

-- What the Rust types of the fields say.
pub record IsChunkLayout (l : ChunkLayout) : Type 0 where
  pub file_size : IsU64 l.file_size
  pub chunk_size : IsU64 l.chunk_size
  pub positive : 0 < l.chunk_size

-- `ChunkLayout::new`
unfoldable pub new : ℕ → ℕ → Result ChunkLayout ChunkLayoutError
new file_size chunk_size = do
  require (not (chunk_size == 0)) zero_chunk_size
  ok (record { file_size = file_size; chunk_size = chunk_size })

unfoldable pub chunk_count : ChunkLayout → ℕ
chunk_count layout =
    let quotient = layout.file_size / layout.chunk_size in
    let remainder = layout.file_size % layout.chunk_size in
    if remainder == 0 then quotient else quotient + 1

-- The rest of `range`, once the index has passed its test; the two `?` of the source return `none`.
abbrev range_at : ChunkLayout → ℕ → Option ℕ → Option ChunkRange
range_at layout index none = none
range_at layout index (some offset) = elim (checked_sub layout.file_size offset) [
  | none ↦ none
  | some remaining ↦
      some (record { index = index; offset = offset; length = min layout.chunk_size remaining })
]

unfoldable pub range : ChunkLayout → ℕ → Option ChunkRange
range layout index =
    if ltb index (chunk_count layout)
    then range_at layout index (checked_mul index layout.chunk_size)
    else none
