-- ===== src/Chunk/State/Revalidate.antt =====
-- `revalidate_chunk_state` and `prepare_chunk_inventory` (src/chunk_state.rs): the records that the
-- partial file still bears out. Opening a file, and reading the stored state, are parameters.
pub mod Kept
pub mod Sound
use warpfile.Common.{
  ℕ, List, [], ◌∷◌, Option, none, some, Bool, true, false, ◌==◌, ◌&&◌, if◌then◌else◌,
}
use warpfile.Common.{Result, ok, err, panic, ◌>>=◌, map_err}
use warpfile.Bytes.Slice.{bytes_eq}
use warpfile.Io.{ErrorKind, is_not_found}
use warpfile.Io.File.{RandomFile, Readable}
use warpfile.Chunk.Hash.{ChunkHash}
use warpfile.Chunk.Layout.{ChunkLayout, ChunkRange, range}
use warpfile.Chunk.Manifest.{Hasher}
use warpfile.Chunk.Reading.{hash_chunk}
use warpfile.Chunk.Search.{RecordedChunk}
use warpfile.Chunk.State.{ChunkState, ChunkStateError, io, new}

-- `#[derive(PartialEq)]`
abbrev pub layout_eq : ChunkLayout → ChunkLayout → Bool
layout_eq a b = a.file_size == b.file_size && a.chunk_size == b.chunk_size

module _ (H : Hasher) {F : RandomFile} (O : Readable F) where
  open H use {State, init, finalize}

  -- `remaining == 0`, and the hash is the recorded one.
  abbrev pub is_borne_out : RecordedChunk → State × ℕ → Bool
  is_borne_out c (hasher, remaining) =
      remaining == 0 && bytes_eq (finalize hasher).bytes c.hash.bytes

  -- The chunk with this range is read; the fuel is its length.
  unfoldable pub check_chunk : F.File → RecordedChunk → ChunkRange → Result Bool ChunkStateError
  check_chunk f c r = do
    reader ← map_err io (O.seek f r.offset)
    read ← map_err io (hash_chunk H O.source r.length reader init r.length)
    ok (is_borne_out c read)

  abbrev pub keep_if : RecordedChunk → Bool → List RecordedChunk → List RecordedChunk
  keep_if c true cs = c ∷ cs
  keep_if c false cs = cs

  -- The loop: the records whose chunk stands in the file. An index out of range is left out.
  unfoldable pub verified_chunks :
      ChunkLayout → F.File → List RecordedChunk → Result (List RecordedChunk) ChunkStateError
  verified_chunks layout f [] = ok []
  verified_chunks layout f (c ∷ cs) = elim (range layout c.index) [
    | none ↦ verified_chunks layout f cs
    | some r ↦ do
      keep ← check_chunk f c r
      kept ← verified_chunks layout f cs
      ok (keep_if c keep kept)
  ]

  -- What follows opening the partial file.
  abbrev pub revalidate_opened :
      ChunkState → Result F.File ErrorKind → Result ChunkState ChunkStateError
  revalidate_opened state (ok f) = do
    kept ← verified_chunks state.layout f state.chunks
    new state.layout kept
  revalidate_opened state (err e) = if is_not_found e then new state.layout [] else err (io e)
  revalidate_opened state panic = panic

  -- With no record there is nothing to read.
  abbrev pub revalidate_chunks :
      Result F.File ErrorKind → ChunkState → List RecordedChunk → Result ChunkState ChunkStateError
  revalidate_chunks opened state [] = new state.layout []
  revalidate_chunks opened state (c ∷ cs) = revalidate_opened state opened

  unfoldable pub revalidate_chunk_state :
      Result F.File ErrorKind → ChunkState → Result ChunkState ChunkStateError
  revalidate_chunk_state opened state = revalidate_chunks opened state state.chunks

  -- What `read_chunk_state` gave, an I/O error or any other, decides.
  unfoldable pub prepare_chunk_inventory :
      Result ChunkState ChunkStateError
      → Result F.File ErrorKind
      → ChunkLayout
      → Result ChunkState ChunkStateError
  prepare_chunk_inventory (ok state) opened offered_layout =
      if layout_eq state.layout offered_layout
      then revalidate_chunk_state opened state
      else new offered_layout []
  prepare_chunk_inventory (err (io e)) opened offered_layout =
      if is_not_found e then new offered_layout [] else err (io e)
  prepare_chunk_inventory (err e) opened offered_layout = new offered_layout []
  prepare_chunk_inventory panic opened offered_layout = panic
