-- ===== src/Examples/Chunks.antt =====
-- A file of ten bytes in chunks of four.
use warpfile.Common.{
  ℕ, suc, ◌+◌, ◌≤◌, ◌<◌, ◌≡◌, ◌≢◌, ◌⊎◌, ◌↔◌, refl, arith, List, [], ◌∷◌, none, some, true,
}
use warpfile.Common.{ok, panic, if◌then◌else◌, ◌==◌}
use warpfile.Chunk.Hash.{ChunkHash}
use warpfile.Chunk.Layout.{ChunkLayout, ChunkRange, IsChunkLayout, range, chunk_count}
use warpfile.Bytes.Words.{checked_mul, checked_sub}
use warpfile.Chunk.Layout.Cover.{
  Holds, range_inside, range_contiguous, range_covers, ranges_disjoint,
}
use warpfile.Chunk.Search.{RecordedChunk, missing, binary_search}
use warpfile.Chunk.State.{ChunkState, new, in_range, record_verified_chunk, hash}
use warpfile.Chunk.State.Invariant.{IsWellFormed, new_iff, record-IsWellFormed}
use warpfile.Chunk.State.Lookup.{hash-record}

abbrev ten : ChunkLayout
ten = record { file_size = 10; chunk_size = 4 }

ten-IsChunkLayout : IsChunkLayout ten
ten-IsChunkLayout = omega arith

abbrev last_range : ChunkRange
last_range = record { index = 2; offset = 8; length = 2 }

last_range_lem : range ten 2 ≡ some last_range
unfolding range chunk_count checked_mul checked_sub
last_range_lem = refl

range_inside_example :
    (last_range.index ≡ 2)
    × (0 < last_range.length)
    × (last_range.length ≤ ten.chunk_size)
    × (last_range.offset + last_range.length ≤ ten.file_size)
range_inside_example = range_inside ten ten-IsChunkLayout 2 last_range last_range_lem

range_contiguous_example :
    ((q : ChunkRange) × (range ten (suc 2) ≡ some q)
      × (q.offset ≡ last_range.offset + last_range.length))
    ⊎ ((range ten (suc 2) ≡ none) × (last_range.offset + last_range.length ≡ ten.file_size))
range_contiguous_example = range_contiguous ten ten-IsChunkLayout 2 last_range last_range_lem

range_covers_example : (i : ℕ) × (r : ChunkRange) × (range ten i ≡ some r) × Holds r 9
range_covers_example = range_covers ten ten-IsChunkLayout 9 (omega arith)

last_range-Holds : Holds last_range 9
last_range-Holds = omega arith

ranges_disjoint_example : ◌≡◌ {A = ℕ} 2 2
ranges_disjoint_example =
    ranges_disjoint ten ten-IsChunkLayout 2 2 9 last_range last_range last_range_lem last_range_lem
      last_range-Holds last_range-Holds

abbrev hash_a : ChunkHash
hash_a = record { bytes = 0x11 ∷ [] }

abbrev sparse : List RecordedChunk
sparse = record { index = 0; hash = hash_a } ∷ record { index = 2; hash = hash_a } ∷ []

search_one : binary_search sparse 1 ≡ missing 1
unfolding binary_search
search_one = refl

abbrev state : ChunkState
state = record { layout = ten; chunks = sparse }

zero_in_range : in_range ten 0 ≡ true
unfolding in_range range chunk_count checked_mul checked_sub
zero_in_range = refl

two_in_range : in_range ten 2 ≡ true
unfolding in_range range chunk_count checked_mul checked_sub
two_in_range = refl

state-IsWellFormed : IsWellFormed state
state-IsWellFormed = record { sorted = omega arith; ranged = (zero_in_range, (two_in_range, tt)) }

new_iff_example :
    (new ten sparse ≡ ok state)
    ↔ ((state ≡ record { layout = ten; chunks = sparse }) × IsWellFormed state)
new_iff_example = new_iff ten sparse state

record-IsWellFormed_example :
    IsWellFormed (record_verified_chunk state 1 hash_a).0
    × ((record_verified_chunk state 1 hash_a).1 ≢ panic)
record-IsWellFormed_example = record-IsWellFormed state 1 hash_a state-IsWellFormed

hash-record_example :
    hash (record_verified_chunk state 1 hash_a).0 1
    ≡ (if in_range ten 1 then (if 1 == 1 then some hash_a else hash state 1) else hash state 1)
hash-record_example = hash-record state 1 1 hash_a state-IsWellFormed
