-- ===== src/Sender/Scan.antt =====
-- `SourceScannerV03` (src/sender_v03.rs): the source file is read chunk by chunk, and each chunk is
-- compared with the receiver's inventory. The source, and the hasher, are parameters; memory for a
-- chunk can always be had. An error ends the scan.
pub mod Sound
pub mod Whole
use warpfile.Common.{
  ℕ, ◌+◌, ◌≡◌, List, [], Option, none, some, Bool, true, false, not, ◌==◌, if◌then◌else◌,
}
use warpfile.Common.{
  length, get_elem?, Result, ok, err, panic, ◌>>=◌, ◌>>◌, require, ok_or, map_err,
}
use warpfile.Bytes.Words.{checked_add}
use warpfile.Io.{ErrorKind}
use warpfile.Io.Source.{Source, read_full}
use warpfile.Chunk.Hash.{ChunkHash}
use warpfile.Chunk.Layout.{ChunkLayout, ChunkRange, range, chunk_count}
use warpfile.Chunk.Manifest.{Hasher}
use warpfile.Protocol.V03.ChunkHashes.{ChunkHashRecord}
use warpfile.Receiver.Chunks.{hash_eq}

pub record ReceiverInventoryV03 : Type 0 where
  pub layout : ChunkLayout
  pub records : List ChunkHashRecord

pub data SourceChunkDispositionV03 : Type 0 where
  reuse transmit : SourceChunkDispositionV03

pub record SourceChunkV03 : Type 0 where
  pub index : ℕ
  pub offset : ℕ
  pub hash : ChunkHash
  pub disposition : SourceChunkDispositionV03
  pub bytes : List ℕ

pub data SourceScanV03Error : Type 0 where
  io : ErrorKind → SourceScanV03Error
  chunk_length_too_large : ℕ → SourceScanV03Error
  chunk_allocation_failed : ℕ → SourceScanV03Error
  -- expected, actual
  source_too_short : ℕ → ℕ → SourceScanV03Error
  source_too_long : ℕ → SourceScanV03Error
  incomplete_scan : SourceScanV03Error
  -- consumed, total
  unreconciled_inventory : ℕ → ℕ → SourceScanV03Error
  invalid_chunk_geometry : ℕ → SourceScanV03Error
  chunk_index_overflow : SourceScanV03Error

pub record SourceScannerV03 (H : Hasher) (R : Source) : Type 0 where
  pub source : R.Reader
  pub layout : ChunkLayout
  pub inventory : ReceiverInventoryV03
  pub inventory_cursor : ℕ
  pub next_chunk_index : ℕ
  pub full_file_hasher : H.State
  pub source_length_confirmed : Bool

-- The disposition of a chunk, and the cursor behind its record. (`debug_assert!` is not compiled into
-- a release.)
unfoldable pub compare_record :
    Option ChunkHashRecord → ℕ → ChunkHash → ℕ → SourceChunkDispositionV03 × ℕ
compare_record none index hash cursor = (transmit, cursor)
compare_record (some r) index hash cursor =
    if r.chunk_index == index
    then ((if hash_eq r.hash hash then reuse else transmit), cursor + 1)
    else (transmit, cursor)

module _ (H : Hasher) (R : Source) where
  open H use {init, feed, finalize, digest}
  open R use {Reader, read}

  -- `SourceScannerV03::new`
  unfoldable pub new : Reader → ReceiverInventoryV03 → SourceScannerV03 H R
  new source inventory = record {
    source = source;
    layout = inventory.layout;
    inventory = inventory;
    inventory_cursor = 0;
    next_chunk_index = 0;
    full_file_hasher = init;
    source_length_confirmed = false;
  }

  -- The bytes behind the last chunk must be none.
  unfoldable pub confirm_source_end : SourceScannerV03 H R → Result Reader SourceScanV03Error
  confirm_source_end s = do
    (bytes, r) ← map_err io (read s.source 1)
    require (length bytes == 0) (source_too_long s.layout.file_size)
    ok r

  -- What follows the reads: the chunk's bytes are all there, or the source ended.
  abbrev pub check_length :
      SourceScannerV03 H R
      → ChunkRange
      → List ℕ × Reader
      → Result (List ℕ × Reader) SourceScanV03Error
  check_length s r (bytes, source) =
      if length bytes == r.length
      then ok (bytes, source)
      else ok_or (checked_add r.offset (length bytes)) chunk_index_overflow >>= λ actual.
          err (source_too_short s.layout.file_size actual)

  -- The bytes of the chunk with this range.
  unfoldable pub read_chunk :
      SourceScannerV03 H R → ChunkRange → Result (List ℕ × Reader) SourceScanV03Error
  read_chunk s r = map_err io (read_full R r.length s.source r.length) >>= check_length s r

  unfoldable pub scan_chunk :
      SourceScannerV03 H R → Result (SourceScannerV03 H R × SourceChunkV03) SourceScanV03Error
  scan_chunk s = do
    r ← ok_or (range s.layout s.next_chunk_index) (invalid_chunk_geometry s.next_chunk_index)
    (bytes, source) ← read_chunk s r
    let h = digest bytes
    let compared =
        compare_record (get_elem? s.inventory.records s.inventory_cursor) r.index h
          s.inventory_cursor
    next_index ← ok_or (checked_add s.next_chunk_index 1) chunk_index_overflow
    ok (
      record s {
        source = source;
        inventory_cursor = compared.1;
        next_chunk_index = next_index;
        full_file_hasher = feed s.full_file_hasher bytes;
      },
      record {
        index = r.index;
        offset = r.offset;
        hash = h;
        disposition = compared.0;
        bytes = bytes;
      },
    )

  unfoldable pub next_chunk :
      SourceScannerV03 H R
      → Result (SourceScannerV03 H R × Option SourceChunkV03) SourceScanV03Error
  next_chunk s =
      if s.source_length_confirmed
      then ok (s, none)
      else if s.next_chunk_index == chunk_count s.layout
      then (do
        r ← confirm_source_end s
        ok (record s { source = r; source_length_confirmed = true }, none))
      else (do (s', chunk) ← scan_chunk s; ok (s', some chunk))

  unfoldable pub finish : SourceScannerV03 H R → Result ChunkHash SourceScanV03Error
  finish s = do
    require s.source_length_confirmed incomplete_scan
    require (s.inventory_cursor == length s.inventory.records)
        (unreconciled_inventory s.inventory_cursor (length s.inventory.records))
    ok (finalize s.full_file_hasher)
