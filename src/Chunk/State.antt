-- ===== src/Chunk/State.antt =====
-- `ChunkState` (src/chunk_state.rs): which chunks of a partial file are recorded as verified.
pub mod Invariant
pub mod Lookup
pub mod Revalidate
use warpfile.Common.{
  ℕ, zero, suc, ◌+◌, ◌<◌, ◌≡◌, List, [], ◌∷◌, Option, none, some, Bool, true, false,
}
use warpfile.Common.{not, ltb, leb, ◌==◌, if◌then◌else◌, length, get_elem?, All}
use warpfile.Common.{Result, ok, err, panic, ◌>>=◌, ◌>>◌, require}
use Prim.Native.String.{String}
use warpfile.Io.{ErrorKind}
use warpfile.Chunk.Hash.{ChunkHash}
use warpfile.Chunk.Layout.{ChunkLayout, range}
use warpfile.Chunk.Search.{RecordedChunk, Search, found, missing, binary_search}

pub record ChunkState : Type 0 where
  pub layout : ChunkLayout
  pub chunks : List RecordedChunk

-- An I/O error is its kind, and the text of a JSON error is left out.
pub data ChunkStateError : Type 0 where
  io : ErrorKind → ChunkStateError
  json : ChunkStateError
  root_not_object : ChunkStateError
  missing_field : String → ChunkStateError
  invalid_field : String → ChunkStateError
  unsupported_format_version : ℕ → ChunkStateError
  invalid_chunk_hash : ℕ → ChunkStateError
  chunk_index_out_of_range : ℕ → ChunkStateError
  duplicate_chunk_index : ℕ → ChunkStateError
  -- previous, current
  unordered_chunk_indices : ℕ → ℕ → ChunkStateError

-- `self.layout.range(index).is_some()`
unfoldable pub in_range : ChunkLayout → ℕ → Bool
in_range layout index = elim (range layout index) [ none ↦ false | some r ↦ true ]

-- `self.chunks[position].hash = hash`
unfoldable pub set_hash : List RecordedChunk → ℕ → ChunkHash → Option (List RecordedChunk)
set_hash [] position hash = none
set_hash (c ∷ cs) zero hash = some (record c { hash = hash } ∷ cs)
set_hash (c ∷ cs) (suc position) hash = elim (set_hash cs position hash) [
  | none ↦ none
  | some cs' ↦ some (c ∷ cs')
]

-- `self.chunks.insert(position, chunk)`
unfoldable pub insert_at : List RecordedChunk → ℕ → RecordedChunk → Option (List RecordedChunk)
insert_at cs zero chunk = some (chunk ∷ cs)
insert_at [] (suc position) chunk = none
insert_at (c ∷ cs) (suc position) chunk = elim (insert_at cs position chunk) [
  | none ↦ none
  | some cs' ↦ some (c ∷ cs')
]

-- The two tests against the index before.
unfoldable pub check_order : Option ℕ → ℕ → Result (Unit {0}) ChunkStateError
check_order none current = ok tt
check_order (some previous) current = do
  require (not (current == previous)) (duplicate_chunk_index current)
  require (not (ltb current previous)) (unordered_chunk_indices previous current)
  ok tt

-- The loop of `validate_recorded_chunks`.
unfoldable pub validate_from :
    ChunkLayout → Option ℕ → List RecordedChunk → Result (Unit {0}) ChunkStateError
validate_from layout previous [] = ok tt
validate_from layout previous (c ∷ cs) = do
  require (in_range layout c.index) (chunk_index_out_of_range c.index)
  check_order previous c.index
  validate_from layout (some c.index) cs

unfoldable pub validate_recorded_chunks :
    ChunkLayout → List RecordedChunk → Result (Unit {0}) ChunkStateError
validate_recorded_chunks layout chunks = validate_from layout none chunks

-- `ChunkState::new`
unfoldable pub new : ChunkLayout → List RecordedChunk → Result ChunkState ChunkStateError
new layout chunks = do
  validate_recorded_chunks layout chunks
  ok (record { layout = layout; chunks = chunks })

-- The new list, or a panic where a position is out of bounds.
unfoldable pub store :
    ChunkState → Option (List RecordedChunk) → ChunkState × Result (Unit {0}) ChunkStateError
store state none = (state, panic)
store state (some chunks) = (record state { chunks = chunks }, ok tt)

unfoldable pub record_at :
    ChunkState → ℕ → ChunkHash → Search → ChunkState × Result (Unit {0}) ChunkStateError
record_at state index hash (found position) = store state (set_hash state.chunks position hash)
record_at state index hash (missing position) =
    store state (insert_at state.chunks position (record { index = index; hash = hash }))

-- `record_verified_chunk(&mut self, index, hash)`: the state after the call, and its result.
unfoldable pub record_verified_chunk :
    ChunkState → ℕ → ChunkHash → ChunkState × Result (Unit {0}) ChunkStateError
record_verified_chunk state index hash =
    if in_range state.layout index
    then record_at state index hash (binary_search state.chunks index)
    else (state, err (chunk_index_out_of_range index))

-- `ChunkState::hash`
unfoldable pub hash_at : List RecordedChunk → Search → Option ChunkHash
hash_at chunks (missing position) = none
hash_at chunks (found position) = elim (get_elem? chunks position) [
  | none ↦ none
  | some c ↦ some c.hash
]

unfoldable pub hash : ChunkState → ℕ → Option ChunkHash
unfolding hash_at
hash state index = hash_at state.chunks (binary_search state.chunks index)
