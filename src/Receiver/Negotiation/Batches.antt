-- ===== src/Receiver/Negotiation/Batches.antt =====
-- The batches that `chunk_hash_batches` (src/receiver_v03.rs) makes of a well-formed chunk state.
use warpfile.Common.{
  ℕ, zero, suc, ◌≤◌, ◌≡◌, refl, sym, ap, ◌∙◌, arith, List, [], ◌∷◌, ◌++◌, map, All,
}
use warpfile.Common.{
  Option, none, some, length, length-drop, All-take, All-drop, take, drop, take-append-drop,
}
use warpfile.Chunk.Layout.{ChunkLayout}
use warpfile.Chunk.Search.{RecordedChunk}
use warpfile.Chunk.Search.Order.{SortedFrom}
use warpfile.Chunk.State.{ChunkState}
use warpfile.Chunk.State.Invariant.{IsWellFormed, InRange}
use warpfile.Protocol.V03.ChunkHashes.{IsChunkHashRecord}
use warpfile.Receiver.Prepare.{chunks_loop, as_record, as_batch, chunk_hash_batches}
use warpfile.Receiver.Negotiation.Exchange.{all_records, IsInventory, Follows}
use warpfile.Receiver.Negotiation.Wire.{IsBatch}

map-append :
    (xs ys : List RecordedChunk) → map as_record (xs ++ ys) ≡ map as_record xs ++ map as_record ys
map-append [] ys = refl
map-append (x ∷ xs) ys = ap (λ t. as_record x ∷ t) (map-append xs ys)

pub length-map : (xs : List RecordedChunk) → length (map as_record xs) ≡ length xs
length-map [] = refl
length-map (x ∷ xs) = ap suc (length-map xs)

-- The batches are the pieces of the list.
all_records-chunks :
    (fuel k : ℕ) (cs : List RecordedChunk)
    → length cs ≤ fuel
    → all_records (map as_batch (chunks_loop fuel (suc k) cs)) ≡ map as_record cs
unfolding chunks_loop
all_records-chunks fuel k [] h = refl
all_records-chunks zero k (c ∷ cs) h = absurd (omega arith)
all_records-chunks (suc fuel) k (c ∷ cs) h =
    let shorter = length-drop k cs in
    ap (λ t. as_record c ∷ (map as_record (take k cs) ++ t))
      (all_records-chunks fuel k (drop k cs) (omega arith))
    ∙ ap (λ t. as_record c ∷ t) (sym (map-append (take k cs) (drop k cs)))
    ∙ ap (λ t. as_record c ∷ map as_record t) (take-append-drop k cs)

abbrev pub IsTyped : RecordedChunk → Type 0
IsTyped c = IsChunkHashRecord (as_record c)

typed-map : (cs : List RecordedChunk) → All IsTyped cs → All IsChunkHashRecord (map as_record cs)
typed-map [] h = tt
typed-map (c ∷ cs) h = (h.0, typed-map cs h.1)

chunks-IsBatch :
    (fuel k : ℕ) (cs : List RecordedChunk)
    → All IsTyped cs
    → All IsBatch (map as_batch (chunks_loop fuel (suc k) cs))
unfolding chunks_loop
chunks-IsBatch fuel k [] h = tt
chunks-IsBatch zero k (c ∷ cs) h = tt
chunks-IsBatch (suc fuel) k (c ∷ cs) h = (
  (omega arith, (h.0, typed-map (take k cs) (All-take IsTyped k cs h.1))),
  chunks-IsBatch fuel k (drop k cs) (All-drop IsTyped k cs h.1),
)

sorted-IsInventory :
    (l : ChunkLayout) (lo : ℕ) (previous : Option ℕ) (cs : List RecordedChunk)
    → ((i : ℕ) → lo ≤ i → Follows previous i)
    → SortedFrom lo cs
    → All (InRange l) cs
    → IsInventory l previous (map as_record cs)
sorted-IsInventory l lo previous [] f s a = tt
sorted-IsInventory l lo previous (c ∷ cs) f s a = (
  a.0,
  f c.index s.0,
  sorted-IsInventory l (suc c.index) (some c.index) cs (λ i h. omega arith) s.1 a.1,
)

-- Everything that `chunk_hash_batches` promises.
pub batches_lem :
    (s : ChunkState)
    → IsWellFormed s
    → All IsTyped s.chunks
    → (all_records (chunk_hash_batches s) ≡ map as_record s.chunks)
      × All IsBatch (chunk_hash_batches s)
      × IsInventory s.layout none (map as_record s.chunks)
unfolding chunk_hash_batches
batches_lem s w typed = (
  all_records-chunks (length s.chunks) 26213 s.chunks (omega arith),
  chunks-IsBatch (length s.chunks) 26213 s.chunks typed,
  sorted-IsInventory s.layout 0 none s.chunks (λ i h. tt) w.sorted w.ranged,
)
