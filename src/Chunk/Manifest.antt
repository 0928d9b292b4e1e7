-- ===== src/Chunk/Manifest.antt =====
-- `ChunkManifest` and `ChunkManifestBuilder` (src/chunk_manifest.rs): the hash of every chunk of a
-- file that arrives in pieces. The BLAKE3 hasher is a parameter.
pub mod Building
pub mod Rounds
pub mod Correct
use warpfile.Common.{ℕ, zero, suc, ◌+◌, ◌-◌, ◌≡◌, List, [], ◌∷◌, ◌++◌, Option, none, some, min}
use warpfile.Common.{Bool, ltb, ◌==◌, if◌then◌else◌, length, take, drop, get_elem?}
use warpfile.Common.{Result, ok, err, panic, ◌>>=◌, ◌>>◌, require, not}
use warpfile.Bytes.Words.{checked_add, checked_sub, saturating_add}
use warpfile.Chunk.Hash.{ChunkHash}
use warpfile.Chunk.Layout.{ChunkLayout, ChunkRange, range, chunk_count}

-- `blake3::Hasher`. `Absorbed s xs` says that the updates since `init` were fed the bytes `xs`; the
-- digest is then the hash of `xs`, however they were cut.
pub record Hasher : Type 1 where
  pub State : Type 0
  pub init : State
  pub feed : State → List ℕ → State
  pub finalize : State → ChunkHash
  pub digest : List ℕ → ChunkHash
  pub Absorbed : State → List ℕ → Type 0
  pub init-Absorbed : Absorbed init []
  pub feed-Absorbed :
      (s : State) (xs bytes : List ℕ) → Absorbed s xs → Absorbed (feed s bytes) (xs ++ bytes)
  pub finalize_lem : (s : State) (xs : List ℕ) → Absorbed s xs → finalize s ≡ digest xs

pub record ChunkManifest : Type 0 where
  pub layout : ChunkLayout
  pub hashes : List ChunkHash

-- expected, actual or attempted
pub data ChunkManifestError : Type 0 where
  incomplete_data : ℕ → ℕ → ChunkManifestError
  too_much_data : ℕ → ℕ → ChunkManifestError

pub record ChunkManifestBuilder (H : Hasher) : Type 0 where
  pub layout : ChunkLayout
  pub hashes : List ChunkHash
  pub current_hasher : H.State
  pub current_chunk_length : ℕ
  pub bytes_received : ℕ

-- `ChunkManifest::hash`
unfoldable pub manifest_hash : ChunkManifest → ℕ → Option ChunkHash
manifest_hash m index = get_elem? m.hashes index

-- `expect`, and the arithmetic on `u64` that must not overflow.
abbrev pub expect : {A E : Type 0} → Option A → Result A E
expect none = panic
expect (some a) = ok a

module _ (H : Hasher) where
  open H use {init, feed, finalize}

  -- `ChunkManifestBuilder::new`
  unfoldable pub new : ChunkLayout → ChunkManifestBuilder H
  new layout = record {
    layout = layout;
    hashes = [];
    current_hasher = init;
    current_chunk_length = 0;
    bytes_received = 0;
  }

  -- The end of a round: a full chunk gives its hash.
  unfoldable pub close_chunk : ChunkManifestBuilder H → ChunkRange → ChunkManifestBuilder H
  close_chunk builder range =
      if builder.current_chunk_length == range.length
      then record builder {
        hashes = builder.hashes ++ finalize builder.current_hasher ∷ [];
        current_hasher = init;
        current_chunk_length = 0;
      }
      else builder

  -- One round of the loop in `update`: the builder after it, and the rest of the data.
  unfoldable pub round :
      ChunkManifestBuilder H → List ℕ → Result (ChunkManifestBuilder H × List ℕ) ChunkManifestError
  round builder bytes = do
    r ← expect (range builder.layout (length builder.hashes))
    remaining_in_chunk ← expect (checked_sub r.length builder.current_chunk_length)
    let taken = min remaining_in_chunk (length bytes)
    current_chunk_length ← expect (checked_add builder.current_chunk_length taken)
    bytes_received ← expect (checked_add builder.bytes_received taken)
    let fed : ChunkManifestBuilder H = record builder {
      current_hasher = feed builder.current_hasher (take taken bytes);
      current_chunk_length = current_chunk_length;
      bytes_received = bytes_received;
    }
    ok (close_chunk fed r, drop taken bytes)

  -- `while !data.is_empty()`
  unfoldable pub update_loop :
      ℕ → ChunkManifestBuilder H → List ℕ → Result (ChunkManifestBuilder H) ChunkManifestError
  update_loop fuel builder [] = ok builder
  update_loop zero builder (b ∷ bs) = panic
  update_loop (suc fuel) builder (b ∷ bs) = do
    (builder', rest) ← round builder (b ∷ bs)
    update_loop fuel builder' rest

  unfoldable pub try_update :
      ChunkManifestBuilder H → List ℕ → Result (ChunkManifestBuilder H) ChunkManifestError
  try_update builder bytes = do
    let attempted = saturating_add builder.bytes_received (length bytes)
    room ← expect (checked_sub builder.layout.file_size builder.bytes_received)
    require (not (ltb room (length bytes))) (too_much_data builder.layout.file_size attempted)
    update_loop (length bytes) builder bytes

  -- `update(&mut self, data)`: the builder after the call, and its result. The error is returned
  -- before anything has changed.
  unfoldable pub update :
      ChunkManifestBuilder H
      → List ℕ
      → ChunkManifestBuilder H × Result (Unit {0}) ChunkManifestError
  update builder bytes = elim (try_update builder bytes) [
    | ok builder' ↦ (builder', ok tt)
    | err e ↦ (builder, err e)
    | panic ↦ (builder, panic)
  ]

  unfoldable pub finish : ChunkManifestBuilder H → Result ChunkManifest ChunkManifestError
  finish builder = do
    require (builder.bytes_received == builder.layout.file_size)
        (incomplete_data builder.layout.file_size builder.bytes_received)
    ok (record { layout = builder.layout; hashes = builder.hashes })

  -- The calls of a client that passes the pieces on, one by one, as long as no call fails.
  unfoldable pub update_all :
      ChunkManifestBuilder H → List (List ℕ) → Result (ChunkManifestBuilder H) ChunkManifestError
  update_all builder [] = ok builder
  update_all builder (piece ∷ pieces) = do
    (update builder piece).1
    update_all (update builder piece).0 pieces
