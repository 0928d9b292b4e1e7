-- ===== src/Chunk/State/Lookup.antt =====
-- What a chunk state answers: `hash` after `record_verified_chunk`.
use warpfile.Common.{ℕ, suc, ◌<◌, ◌≡◌, refl, sym, ap, ◌∙◌, arith, List, [], ◌∷◌, Option, none, some}
use warpfile.Common.{◌==◌, if◌then◌else◌, Bool-cases, inl, inr}
use warpfile.Chunk.Hash.{ChunkHash}
use warpfile.Chunk.Search.{RecordedChunk, Search, found, missing, bump, binary_search}
use warpfile.Chunk.Search.Order.{SortedFrom}
use warpfile.Chunk.State.{ChunkState, in_range, record_verified_chunk, hash, hash_at}
use warpfile.Chunk.State.Invariant.{
  IsWellFormed, upsert, record-eq-upsert, record_out_of_range, record-IsWellFormed,
}

-- The map that a state stands for.
unfoldable pub lookup : ℕ → List RecordedChunk → Option ChunkHash
lookup i [] = none
lookup i (c ∷ cs) = if c.index == i then some c.hash else lookup i cs

lookup-below : (i lo : ℕ) (cs : List RecordedChunk) → i < lo → SortedFrom lo cs → lookup i cs ≡ none
unfolding lookup
lookup-below i lo [] l s = refl
lookup-below i lo (c ∷ cs) l s = ground (arith, lookup-below i (suc c.index) cs)

hash_at-bump :
    (c : RecordedChunk) (cs : List RecordedChunk) (r : Search)
    → hash_at (c ∷ cs) (bump r) ≡ hash_at cs r
unfolding hash_at
hash_at-bump c cs (found p) = refl
hash_at-bump c cs (missing p) = refl

hash_at-search :
    (lo i : ℕ) (cs : List RecordedChunk)
    → SortedFrom lo cs
    → hash_at cs (binary_search cs i) ≡ lookup i cs
unfolding hash_at binary_search lookup
hash_at-search lo i [] s = refl
hash_at-search lo i (c ∷ cs) s = ground (
  arith,
  hash_at-bump c cs (binary_search cs i),
  hash_at-search (suc c.index) i cs,
  lookup-below i (suc c.index) cs,
)

pub hash-eq-lookup : (s : ChunkState) (i : ℕ) → IsWellFormed s → hash s i ≡ lookup i s.chunks
unfolding hash
hash-eq-lookup s i w = hash_at-search 0 i s.chunks (w.sorted)

lookup-upsert :
    (i j : ℕ) (h : ChunkHash) (cs : List RecordedChunk)
    → lookup j (upsert i h cs) ≡ (if i == j then some h else lookup j cs)
unfolding lookup upsert
lookup-upsert i j h [] = refl
lookup-upsert i j h (c ∷ cs) = ground (arith, lookup-upsert i j h cs)

-- On a well-formed state, after `record_verified_chunk` of an index and a hash: `hash` of that
-- index is the new hash where the index is in the range of the layout, and `hash` of any other
-- index, or after an index out of range, is what it was.
pub hash-record :
    (s : ChunkState) (i j : ℕ) (h : ChunkHash)
    → IsWellFormed s
    → hash (record_verified_chunk s i h).0 j
      ≡ (if in_range s.layout i then (if i == j then some h else hash s j) else hash s j)
hash-record s i j h w = elim (Bool-cases (in_range s.layout i)) [
  | inl r ↦
      let w' : IsWellFormed (record s { chunks = upsert i h s.chunks }) =
        rw (record-eq-upsert s i h w r) at (record-IsWellFormed s i h w).0 in
      rw (r, record-eq-upsert s i h w r)
        (hash-eq-lookup _ j w'
          ∙ lookup-upsert i j h s.chunks
          ∙ ap (λ t. if i == j then some h else t) (sym (hash-eq-lookup s j w)))
  | inr r ↦ rw (r, record_out_of_range s i h r) refl
]
