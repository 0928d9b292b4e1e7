-- ===== src/Chunk/Search.antt =====
-- The recorded chunks of a state, and what the standard library's `[T]::binary_search_by_key`, which
-- `ChunkState` calls on them with their index as the key, returns.
pub mod Order
use warpfile.Common.{ℕ, zero, suc, ◌+◌, ◌-◌, ◌/◌, List, [], ◌∷◌, Option, none, some}
use warpfile.Common.{Bool, ltb, ◌==◌, if◌then◌else◌, length, get_elem?}
use warpfile.Chunk.Hash.{ChunkHash}

pub record RecordedChunk : Type 0 where
  pub index : ℕ
  pub hash : ChunkHash

-- `Ok(position)` and `Err(position)` of the search.
pub data Search : Type 0 where
  found : ℕ → Search
  missing : ℕ → Search

abbrev pub bump : Search → Search
bump (found p) = found (suc p)
bump (missing p) = missing (suc p)

-- The position of the key where it is recorded, else the position of the first chunk above it, or
-- the end: what the search is documented to return on a list in increasing order of index.
unfoldable pub binary_search : List RecordedChunk → ℕ → Search
binary_search [] key = missing 0
binary_search (c ∷ cs) key =
    if ltb c.index key
    then bump (binary_search cs key)
    else if ltb key c.index
    then missing 0
    else found 0
