-- ===== src/Chunk/Manifest/Building.antt =====
-- The invariant of the builder on the bytes that it has received.
use warpfile.Common.{ℕ, suc, ◌+◌, ◌*◌, ◌≤◌, ◌<◌, ◌≡◌, ap, ◌∙◌, arith, min}
use warpfile.Common.{List, ◌++◌, some, ◌⊎◌}
use warpfile.Common.{length, take, drop, get_elem?}
use warpfile.Common.{take_inside, drop_inside, length-drop}
use warpfile.Chunk.Layout.{ChunkLayout, IsChunkLayout, chunk_count}
use warpfile.Chunk.Layout.Ranges.{nth_range}
use warpfile.Chunk.Manifest.{Hasher, ChunkManifestBuilder}

module _ (l : ChunkLayout) (valid : IsChunkLayout l) where
  -- The bytes of a file that the range of an index covers.
  abbrev pub chunk_bytes : ℕ → List ℕ → List ℕ
  chunk_bytes i xs = take (nth_range l valid i).length (drop (nth_range l valid i).offset xs)

  -- Where the current chunk starts: behind the chunks that have their hash.
  abbrev pub chunk_start : ℕ → ℕ
  chunk_start n = min (n * l.chunk_size) l.file_size

  abbrev pub at_step : (i : ℕ) → suc i * l.chunk_size ≡ i * l.chunk_size + l.chunk_size
  at_step i = omega arith

  -- The chunks that are full do not change.
  pub chunk_bytes-append :
      (i : ℕ) (xs ys : List ℕ)
      → (nth_range l valid i).offset + (nth_range l valid i).length ≤ length xs
      → chunk_bytes i (xs ++ ys) ≡ chunk_bytes i xs
  chunk_bytes-append i xs ys h =
      let r = nth_range l valid i in
      ap (take r.length) (drop_inside r.offset xs ys (omega arith))
      ∙ take_inside r.length (drop r.offset xs) ys (omega (arith, length-drop r.offset xs))

module _ (H : Hasher) (l : ChunkLayout) (valid : IsChunkLayout l) where
  open H use {
    State, init, feed, finalize, digest, Absorbed, init-Absorbed, feed-Absorbed, finalize_lem,
  }

  -- The builder has received the bytes `xs`: every full chunk has its hash, and the hasher has
  -- absorbed the bytes behind them.
  pub record IsBuilding (b : ChunkManifestBuilder H) (xs : List ℕ) : Type 0 where
    pub layout : b.layout ≡ l
    pub received : b.bytes_received ≡ length xs
    pub inside : length xs ≤ l.file_size
    pub count : length b.hashes ≤ chunk_count l
    pub started : chunk_start l valid (length b.hashes) + b.current_chunk_length ≡ length xs
    pub unfinished :
        (length xs < chunk_start l valid (suc (length b.hashes)))
        ⊎ (chunk_start l valid (length b.hashes) ≡ l.file_size)
    pub absorbed : Absorbed b.current_hasher (drop (chunk_start l valid (length b.hashes)) xs)
    pub hashed :
        (i : ℕ)
        → i < length b.hashes
        → get_elem? b.hashes i ≡ some (digest (chunk_bytes l valid i xs))
