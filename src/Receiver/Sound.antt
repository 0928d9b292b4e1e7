-- ===== src/Receiver/Sound.antt =====
-- The invariant of the receiver: what is recorded as verified stands in the file.
use warpfile.Common.{ℕ, ◌+◌, ◌≤◌, ◌<◌, ◌≡◌, arith, List}
use warpfile.Common.{Option, none, some, Bool, false, ◌==◌, length, take, drop}
use warpfile.Common.{ok, ◌⊎◌}
use warpfile.Bytes.Words.{checked_add}
use warpfile.Chunk.Hash.{ChunkHash}
use warpfile.Chunk.Layout.{ChunkLayout, ChunkRange, IsChunkLayout, range, chunk_count}
use warpfile.Chunk.Layout.Ranges.{nth_range}
use warpfile.Chunk.Manifest.{Hasher}
use warpfile.Chunk.Manifest.Building.{chunk_bytes}
use warpfile.Chunk.State.{hash}
use warpfile.Chunk.State.Invariant.{IsWellFormed}
use warpfile.Protocol.V03.ChunkStart.{ChunkStartV03}
use warpfile.Protocol.V03.DataFrame.{DataV03}
use warpfile.Receiver.Chunks.{
  VerifiedChunk, IncomingChunk, ChunkReceiverV03, begin_chunk, check_data,
}

-- Whether a chunk is on its way: its bytes in the file may be changing.
abbrev pub is_active : {H : Hasher} → Option (IncomingChunk H) → ℕ → Bool
is_active none i = false
is_active (some a) i = a.range.index == i

abbrev pub is_pending : Option VerifiedChunk → ℕ → Bool
is_pending none i = false
is_pending (some p) i = p.index == i

module _ (H : Hasher) (l : ChunkLayout) (valid : IsChunkLayout l) where
  open H use {digest, Absorbed}

  -- The active chunk has its range, and its hasher has absorbed the bytes up to the next offset.
  pub record IsIncoming (a : IncomingChunk H) (contents : List ℕ) : Type 0 where
    pub range : a.range ≡ nth_range l valid a.range.index
    pub below : a.range.index < chunk_count l
    pub started : a.range.offset ≤ a.next_offset
    pub bounded : a.next_offset ≤ a.range.offset + a.range.length
    pub absorbed : Absorbed a.hasher (drop a.range.offset (take a.next_offset contents))

  abbrev pub IsActive : Option (IncomingChunk H) → List ℕ → Type 0
  IsActive none contents = Unit {0}
  IsActive (some a) contents = IsIncoming a contents

  abbrev pub IsPending : Option VerifiedChunk → List ℕ → Type 0
  IsPending none contents = Unit {0}
  IsPending (some p) contents =
      (p.index < chunk_count l) × (digest (chunk_bytes l valid p.index contents) ≡ p.hash)

  -- The receiver `r` of a file with these contents: every recorded chunk that is not on its way
  -- stands in the file with its recorded hash.
  pub record IsReceiving (r : ChunkReceiverV03 H) (contents : List ℕ) : Type 0 where
    pub layout : r.chunk_state.layout ≡ l
    pub well_formed : IsWellFormed r.chunk_state
    pub size : length contents ≡ l.file_size
    pub recorded :
        (i : ℕ) (h : ChunkHash)
        → hash r.chunk_state i ≡ some h
        → is_active r.active i ≡ false
        → is_pending r.pending_verified i ≡ false
        → digest (chunk_bytes l valid i contents) ≡ h
    pub active : IsActive r.active contents
    pub pending : IsPending r.pending_verified contents
    pub exclusive : (r.active ≡ none) ⊎ (r.pending_verified ≡ none)

  -- What `begin_chunk` has tested and changed when it succeeds.
  pub begin_chunk-inversion :
      (r r' : ChunkReceiverV03 H) (s : ChunkStartV03)
      → begin_chunk H r s ≡ ok r'
      → (r.pending_verified ≡ none)
        × (r.active ≡ none)
        × (found : ChunkRange) × (range r.chunk_state.layout s.chunk_index ≡ some found)
        × (r' ≡ record r {
          last_chunk_index = some s.chunk_index;
          active = some (record {
            range = found;
            expected_hash = s.expected_hash;
            next_offset = found.offset;
            hasher = H.init;
          });
        })
  unfolding begin_chunk
  begin_chunk-inversion r r' s h = ground arith

  pub check_data-inversion :
      (r : ChunkReceiverV03 H) (d : DataV03) (a : IncomingChunk H) (end chunk_end : ℕ)
      → check_data H r d ≡ ok (a, end, chunk_end)
      → (r.active ≡ some a)
        × (d.absolute_offset ≡ a.next_offset)
        × (end ≡ d.absolute_offset + length d.bytes)
        × (chunk_end ≡ a.range.offset + a.range.length)
        × (end ≤ r.chunk_state.layout.file_size)
        × (end ≤ chunk_end)
  unfolding check_data checked_add
  check_data-inversion r d a end chunk_end h = ground arith
