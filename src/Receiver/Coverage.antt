-- ===== src/Receiver/Coverage.antt =====
-- `ChunkState` (src/chunk_state.rs): the number of its records against the chunks of its layout.
use warpfile.Common.{ℕ, suc, ◌-◌, ◌≤◌, ◌<◌, ◌≡◌, refl, ◌∙◌, arith, List, [], ◌∷◌, All}
use warpfile.Common.{some, ◌==◌, length, Bool-cases, inl, inr}
use warpfile.Chunk.Hash.{ChunkHash}
use warpfile.Chunk.Layout.{ChunkLayout, IsChunkLayout, chunk_count}
use warpfile.Chunk.Search.{RecordedChunk}
use warpfile.Chunk.Search.Order.{SortedFrom}
use warpfile.Chunk.State.{ChunkState, hash}
use warpfile.Chunk.State.Invariant.{IsWellFormed, InRange, in_range-lt}
use warpfile.Chunk.State.Lookup.{lookup, hash-eq-lookup}

abbrev IsBelow : ℕ → RecordedChunk → Type 0
IsBelow n c = c.index < n

-- A strictly increasing list of indices between `lo` and `n`.
length_bound :
    (n lo : ℕ) (cs : List RecordedChunk)
    → SortedFrom lo cs
    → All (IsBelow n) cs
    → length cs ≤ n - lo
length_bound n lo [] s b = omega arith
length_bound n lo (c ∷ cs) s b = let r = length_bound n (suc c.index) cs s.1 b.1 in omega arith

lookup-full :
    (n lo i : ℕ) (cs : List RecordedChunk)
    → SortedFrom lo cs
    → All (IsBelow n) cs
    → length cs ≡ n - lo
    → lo ≤ i
    → i < n
    → (h : ChunkHash) × (lookup i cs ≡ some h)
unfolding lookup
lookup-full n lo i [] s b e l k = absurd (omega arith)
lookup-full n lo i (c ∷ cs) s b e l k =
    let r = length_bound n (suc c.index) cs s.1 b.1 in
    elim (Bool-cases (c.index == i)) [
      | inl h ↦ (c.hash, rw h refl)
      | inr h ↦
          let differ : suc c.index ≤ i = ground arith in
          let (q, p) = lookup-full n (suc c.index) i cs s.1 b.1 (omega arith) differ k in
          (q, rw h p)
    ]

InRange-IsBelow :
    (l : ChunkLayout) (valid : IsChunkLayout l) (cs : List RecordedChunk)
    → All (InRange l) cs
    → All (IsBelow (chunk_count l)) cs
InRange-IsBelow l valid [] h = tt
InRange-IsBelow l valid (c ∷ cs) h =
    (in_range-lt l valid c.index h.0, InRange-IsBelow l valid cs h.1)

-- There are no more records than chunks.
pub recorded_le :
    (s : ChunkState)
    → IsChunkLayout s.layout
    → IsWellFormed s
    → length s.chunks ≤ chunk_count s.layout
recorded_le s valid w =
    let h =
      length_bound (chunk_count s.layout) 0 s.chunks w.sorted
        (InRange-IsBelow s.layout valid s.chunks w.ranged) in
    omega arith

pub hash-full :
    (s : ChunkState)
    → IsChunkLayout s.layout
    → IsWellFormed s
    → length s.chunks ≡ chunk_count s.layout
    → (i : ℕ) → i < chunk_count s.layout
    → (h : ChunkHash) × (hash s i ≡ some h)
hash-full s valid w full i below =
    let (h, e) =
      lookup-full (chunk_count s.layout) 0 i s.chunks w.sorted
        (InRange-IsBelow s.layout valid s.chunks w.ranged) (omega arith) (omega arith) below in
    (h, hash-eq-lookup s i w ∙ e)
